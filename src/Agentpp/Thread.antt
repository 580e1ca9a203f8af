-- ===== src/Agentpp/Thread.antt =====
-- threadpool.{hpp,cpp}: class Thread on boost::thread. One object, the thread that owns it and calls
-- `start` and `join`, and the thread that runs in `thread_starter`.
use queued_thread_pool.Prelude.{
  ℕ, ◌+◌, ◌≡◌, refl, Bool, true, false, Option, none, some, ◌&&◌, not, arith, if◌then◌else◌, After,
  After-some,
}

pub data ThreadStatus : Type 0 where
  idle running finished : ThreadStatus

-- Where the owner stands.
pub data OwnerPc : Type 0 where
  outside : OwnerPc
  created : OwnerPc  -- in `start`, before `status = RUNNING`
  joining : OwnerPc  -- in `join`, at `tid.join()`

-- Where the thread stands that `start` has made.
pub data StarterPc : Type 0 where
  absent : StarterPc  -- there is none, or it has been joined
  at_work : StarterPc  -- before `thread->status = Thread::FINISHED`
  ended : StarterPc

-- `status`, the program counters, and how many threads were made and joined.
pub record Thread : Type 0 where
  pub status : ThreadStatus
  pub owner : OwnerPc
  pub starter : StarterPc
  pub made : ℕ
  pub joined : ℕ

-- `Thread::Thread`
abbrev pub new_thread : Thread
new_thread = record { status = idle; owner = outside; starter = absent; made = 0; joined = 0 }

abbrev pub is_idle : ThreadStatus → Bool
is_idle idle = true
is_idle _ = false

-- `is_alive`
abbrev pub is_alive : ThreadStatus → Bool
is_alive running = true
is_alive _ = false

pub data Action : Type 0 where
  starts joins owner_runs thread_runs : Action

-- `start`, up to the new thread
start : Thread → OwnerPc → Option Thread
start t outside =
    if is_idle t.status
    then some (record t { owner = created; starter = at_work; made = t.made + 1 })
    else some t
start t _ = none

-- `join`, up to `tid.join()`
join : Thread → OwnerPc → Option Thread
join t outside = if is_idle t.status then some t else some (record t { owner = joining })
join t _ = none

-- `tid.join()` and what follows it; `none` while the thread has not ended
await : Thread → StarterPc → Option Thread
await t ended =
    some (record t { status = idle; owner = outside; starter = absent; joined = t.joined + 1 })
await t _ = none

-- The end of `start`, or of `join`
owner_run : Thread → OwnerPc → Option Thread
unfolding await
owner_run t outside = none
owner_run t created = some (record t { status = running; owner = outside })
owner_run t joining = await t t.starter

-- The end of `thread_starter`
starter_run : Thread → StarterPc → Option Thread
starter_run t at_work = some (record t { status = finished; starter = ended })
starter_run t _ = none

unfoldable pub step : Action → Thread → Option Thread
unfolding start join owner_run starter_run
step starts t = start t t.owner
step joins t = join t t.owner
step owner_runs t = owner_run t t.owner
step thread_runs t = starter_run t t.starter

pub data Reach : Thread → Type 0 where
  begin : Reach new_thread
  next : {s t : Thread} (a : Action) → Reach s → step a s ≡ some t → Reach t

abbrev pub out : StarterPc → ℕ
out absent = 0
out _ = 1

abbrev pub is_absent : StarterPc → Bool
is_absent absent = true
is_absent _ = false

abbrev is_created : OwnerPc → Bool
is_created created = true
is_created _ = false

abbrev pub is_ended : StarterPc → Bool
is_ended ended = true
is_ended _ = false

abbrev pub is_outside : OwnerPc → Bool
is_outside outside = true
is_outside _ = false

abbrev pub is_finished : ThreadStatus → Bool
is_finished finished = true
is_finished _ = false

abbrev pub is_joining : OwnerPc → Bool
is_joining joining = true
is_joining _ = false

-- What every step keeps.
abbrev Whole : Thread → Type 0
Whole t =
    (t.made ≡ t.joined + out t.starter)
    × (is_outside t.owner && is_idle t.status && not (is_absent t.starter) ≡ false)
    × (not (is_idle t.status) && is_absent t.starter ≡ false)
    × (is_finished t.status && not (is_ended t.starter) ≡ false)
    × (not (is_outside t.owner) && is_absent t.starter ≡ false)

step-Whole : (t : Thread) (a : Action) → Whole t → After Whole (step a t)
unfolding step
step-Whole t _ w = ground (arith, w.0, w.1, w.2, w.3, w.4)

Reach-Whole : {t : Thread} → Reach t → Whole t
Reach-Whole begin = (refl, refl, refl, refl, refl)
Reach-Whole (next {s} a r e) = After-some Whole e (step-Whole s a (Reach-Whole r))

-- In every state that the two threads can reach in which the owner is neither in `start` nor in `join`:
-- every thread that was made has been joined, but for one exactly if the status is not IDLE; and the
-- status is FINISHED only if that thread has ended.
pub boost_threads_joined :
    {t : Thread}
    → Reach t
    → t.owner ≡ outside
    → (t.made ≡ t.joined + (if is_idle t.status then 0 else 1))
      × (is_finished t.status && not (is_ended t.starter) ≡ false)
boost_threads_joined {t} r o = (ground (arith, w.0, w.1, w.2, o), w.3)
  where
    w : Whole t
    w = Reach-Whole r

-- The race on the status: the thread may set it to FINISHED before `start` sets it to RUNNING. A state can
-- be reached in which the owner has returned from `start`, the thread has ended, and `is_alive` answers true.
pub stale_status :
    (t : Thread) × Reach t × (t.owner ≡ outside) × (t.starter ≡ ended) × (is_alive t.status ≡ true)
unfolding step
stale_status =
    (_, next owner_runs (next thread_runs (next starts begin refl) refl) refl, refl, refl, refl)
