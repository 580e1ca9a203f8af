-- ===== src/PingPong/Invariant.antt =====
-- perf_condition_variable.cpp: what holds in every state that the threads reach.
use queued_thread_pool.Prelude.{
  ℕ, ◌+◌, ◌≤◌, ◌<◌, ◌≡◌, ◌≢◌, refl, Bool, true, false, ◌==◌, same, weigh, weigh-full, arith, inr,
  ◌⊎◌,
}
use queued_thread_pool.PingPong.{ProducerPc, Stage, Consumer, System, rouse_producer, rouse_stage}

-- How many rounds the producer has still to make; it notifies at the end of one.
abbrev pub left : ProducerPc → ℕ
left (ProducerPc.counting i) = i
left (ProducerPc.locking i) = i + 1
left (ProducerPc.waiting i) = i + 1
left (ProducerPc.notifying i) = i
left ProducerPc.finished = 0

abbrev pub announcing : ProducerPc → Bool
announcing (ProducerPc.notifying i) = true
announcing _ = false

-- What a consumer's stage says: of its counter, the shared counter, the number of iterations, and
-- whether the producer is about to notify.
abbrev pub Placed : ℕ → ℕ → Bool → ℕ → Stage → Type 0
Placed iterations counter b k Stage.testing = Unit
Placed iterations counter b k Stage.locking = k ≢ iterations
Placed iterations counter b k Stage.waiting = (k ≢ iterations) × ((k ≡ counter) ⊎ (b ≡ true))
Placed iterations counter b k Stage.notifying = Unit
Placed iterations counter b k Stage.finished = k ≡ iterations

-- Its counter is the shared one, or one less.
abbrev pub Near : ℕ → ℕ → Type 0
Near counter k = (k ≡ counter) ⊎ (k + 1 ≡ counter)

-- Whether it has taken part in the round.
abbrev pub caught_up : ℕ → Consumer → ℕ
caught_up counter c = same c.counter counter

pub caught_up_small : (counter : ℕ) (c : Consumer) → caught_up counter c ≤ 1
caught_up_small counter c = ground arith

caught_up_eq : (counter : ℕ) (c : Consumer) → caught_up counter c ≡ 1 → c.counter ≡ counter
caught_up_eq counter c h = ground (arith, h)

pub all_caught_up :
    (n counter : ℕ) (f : ℕ → Consumer)
    → weigh (caught_up counter) n f ≡ n
    → (j : ℕ) → j < n
    → (f j).counter ≡ counter
all_caught_up n counter f e j h =
    caught_up_eq counter (f j) (weigh-full (caught_up counter) (caught_up_small counter) n f e j h)

pub behind : (counter k : ℕ) → k ≡ counter → same k (counter + 1) ≡ 0
behind counter k h = ground (arith, h)

pub announcing-rouse : (p : ProducerPc) → announcing (rouse_producer p) ≡ announcing p
announcing-rouse (ProducerPc.waiting i) = refl
announcing-rouse (ProducerPc.counting i) = refl
announcing-rouse (ProducerPc.locking i) = refl
announcing-rouse (ProducerPc.notifying i) = refl
announcing-rouse ProducerPc.finished = refl

pub left-rouse : (p : ProducerPc) → left (rouse_producer p) ≡ left p
left-rouse (ProducerPc.waiting i) = refl
left-rouse (ProducerPc.counting i) = refl
left-rouse (ProducerPc.locking i) = refl
left-rouse (ProducerPc.notifying i) = refl
left-rouse ProducerPc.finished = refl

-- A consumer that is woken relies on nothing.
pub Placed-rouse :
    (iterations counter counter' : ℕ) (b b' : Bool) (k : ℕ) (st : Stage)
    → Placed iterations counter b k st
    → Placed iterations counter' b' k (rouse_stage st)
Placed-rouse iterations counter counter' b b' k Stage.testing h = tt
Placed-rouse iterations counter counter' b b' k Stage.locking h = h
Placed-rouse iterations counter counter' b b' k Stage.waiting h = h.0
Placed-rouse iterations counter counter' b b' k Stage.notifying h = tt
Placed-rouse iterations counter counter' b b' k Stage.finished h = h

-- A round begins: the producer is about to notify.
pub Placed-announced :
    (iterations counter counter' : ℕ) (b : Bool) (k : ℕ) (st : Stage)
    → Placed iterations counter b k st
    → Placed iterations counter' true k st
Placed-announced iterations counter counter' b k Stage.testing h = tt
Placed-announced iterations counter counter' b k Stage.locking h = h
Placed-announced iterations counter counter' b k Stage.waiting h = (h.0, inr refl)
Placed-announced iterations counter counter' b k Stage.notifying h = tt
Placed-announced iterations counter counter' b k Stage.finished h = h

pub not_caught :
    (c : Consumer) (counter : ℕ) → (c.counter == counter) ≡ false → caught_up counter c ≡ 0
not_caught c counter h = ground (arith, h)

pub caught : (counter : ℕ) → same counter counter ≡ 1
caught counter = ground arith

module _ (n iterations : ℕ) where
  pub record Good (s : System) : Type 0 where
    pub semaphored : s.semaphore ≡ weigh (caught_up s.counter) n s.consumers
    pub rounds : s.counter + left s.producer ≡ iterations
    pub near : (j : ℕ) → j < n → Near s.counter (s.consumers j).counter
    pub placed :
        (j : ℕ)
        → j < n
        → Placed iterations s.counter
            (announcing s.producer)
            (s.consumers j).counter
            (s.consumers j).stage
