-- ===== src/PingPong.antt =====
-- perf_condition_variable.cpp: `producer_thread` and the consumers' `consumer_thread`, interleaved. A
-- critical section is one step, with the test of its `while` before it.
pub mod Invariant
pub mod Rounds
pub mod Progress
mod Tests
use queued_thread_pool.Prelude.{
  ℕ, zero, suc, ◌+◌, ◌≡◌, Bool, true, false, Option, none, some, ◌==◌, if◌then◌else◌, replace,
  guarded, ltb,
}

-- Where the producer stands; the number is how many rounds of its `for` remain.
pub data ProducerPc : Type 0 where
  counting : ℕ → ProducerPc  -- at `i--`
  locking : ℕ → ProducerPc  -- before it has the mutex, at first or again
  waiting : ℕ → ProducerPc  -- in `cnd.wait(lock)`
  notifying : ℕ → ProducerPc  -- at `cnd.notify_all()`
  finished : ProducerPc

-- Where a consumer stands.
pub data Stage : Type 0 where
  testing : Stage  -- at `counter != shared_data->iterations`
  locking : Stage
  waiting : Stage
  notifying : Stage
  finished : Stage

pub record Consumer : Type 0 where
  pub counter : ℕ
  pub stage : Stage

-- `SharedData`, and the threads
pub record System : Type 0 where
  pub counter : ℕ
  pub semaphore : ℕ
  pub producer : ProducerPc
  pub consumers : ℕ → Consumer

pub data Action : Type 0 where
  produces stirs_producer : Action
  consumes stirs_consumer : ℕ → Action

abbrev pub rouse_producer : ProducerPc → ProducerPc
rouse_producer (ProducerPc.waiting i) = ProducerPc.locking i
rouse_producer (ProducerPc.counting i) = ProducerPc.counting i
rouse_producer (ProducerPc.locking i) = ProducerPc.locking i
rouse_producer (ProducerPc.notifying i) = ProducerPc.notifying i
rouse_producer ProducerPc.finished = ProducerPc.finished

abbrev pub rouse_stage : Stage → Stage
rouse_stage Stage.waiting = Stage.locking
rouse_stage Stage.testing = Stage.testing
rouse_stage Stage.locking = Stage.locking
rouse_stage Stage.notifying = Stage.notifying
rouse_stage Stage.finished = Stage.finished

abbrev pub rouse : Consumer → Consumer
rouse c = record c { stage = rouse_stage c.stage }

-- `cnd.notify_all()`
abbrev pub notify_all : System → System
notify_all s = record s {
  producer = rouse_producer s.producer;
  consumers = λ j. rouse (s.consumers j);
}

abbrev pub remaining : ℕ → ProducerPc
remaining zero = ProducerPc.finished
remaining (suc i) = ProducerPc.locking i

-- One step of `producer_thread`, with so many consumers
unfoldable pub produce : ℕ → System → ProducerPc → Option System
produce number s (ProducerPc.counting i) = some (record s { producer = remaining i })
produce number s (ProducerPc.locking i) = some (
    if number == s.semaphore
    then record s { semaphore = 0; counter = s.counter + 1; producer = ProducerPc.notifying i }
    else record s { producer = ProducerPc.waiting i })
produce number s (ProducerPc.waiting i) = none
produce number s (ProducerPc.notifying i) =
    some (notify_all (record s { producer = ProducerPc.counting i }))
produce number s ProducerPc.finished = none

abbrev pub put : System → ℕ → Consumer → System
put s j c = record s { consumers = replace s.consumers j c }

-- One step of `consumer_thread`
unfoldable pub consume : ℕ → System → ℕ → ℕ → Stage → Option System
consume iterations s j k Stage.testing = some (
    put s j
      (record { counter = k; stage = if k == iterations then Stage.finished else Stage.locking }))
consume iterations s j k Stage.locking = some (
    if k == s.counter
    then put s j (record { counter = k; stage = Stage.waiting })
    else record (put s j (record { counter = s.counter; stage = Stage.notifying })) {
      semaphore = s.semaphore + 1;
    })
consume iterations s j k Stage.waiting = none
consume iterations s j k Stage.notifying =
    some (notify_all (put s j (record { counter = k; stage = Stage.testing })))
consume iterations s j k Stage.finished = none

unfoldable pub step : ℕ → ℕ → Action → System → Option System
unfolding produce consume
step number iterations produces s = produce number s s.producer
step number iterations stirs_producer s = some (record s { producer = rouse_producer s.producer })
step number iterations (consumes j) s =
    guarded (ltb j number) (consume iterations s j (s.consumers j).counter (s.consumers j).stage)
step number iterations (stirs_consumer j) s =
    guarded (ltb j number) (some (put s j (rouse (s.consumers j))))

-- `SharedData(iterations, consumers)`, and the threads at their starts
abbrev pub init : ℕ → ℕ → System
init number iterations = record {
  counter = 0;
  semaphore = number;
  producer = ProducerPc.counting iterations;
  consumers = λ j. record { counter = 0; stage = Stage.testing };
}

pub data Reach (number iterations : ℕ) : System → Type 0 where
  start : Reach number iterations (init number iterations)
  next :
      {s t : System} (a : Action)
      → Reach number iterations s
      → step number iterations a s ≡ some t
      → Reach number iterations t
