-- ===== src/Scheduler/System.antt =====
-- priority_scheduler.cpp: `post`, `stop`, `get_executor` and the loop of `run`, interleaved. One
-- thread calls `run`, as in main; any thread, and a posted function too, makes the other calls. A
-- critical section is one step, but in `run` the test of `hasWork` and that of `stopped_` are two, since
-- the constructor of an executor writes `stopped_` without the mutex.
use queued_thread_pool.Prelude.{
  ℕ, ◌≡◌, Bool, true, false, Option, none, some, List, [], ◌∷◌, ◌||◌, not, if◌then◌else◌,
}
use queued_thread_pool.Scheduler.Queue.{Item, PriorityQueue}

-- Where the thread stands that calls `run`.
pub data RunPc : Type 0 where
  outside : RunPc  -- before the call
  locking : RunPc  -- before it takes the mutex, in the constructor of `lock` or in `lock.lock()`
  waiting : RunPc  -- in `condition_.wait`
  woken : RunPc  -- in it, notified, before it has the mutex back
  decided : RunPc  -- `hasWork()` was true; with the mutex
  executing : Item → RunPc  -- in `p->execute_(p)`
  finished : RunPc
  undefined : RunPc  -- `top` was called on an empty queue

pub data Action : Type 0 where
  runs stirs stops gets_executor : Action
  posts : ℕ → ℕ → Action  -- the function and the executor's priority

abbrev pub rouse : RunPc → RunPc
rouse outside = outside
rouse locking = locking
rouse waiting = woken
rouse woken = woken
rouse decided = decided
rouse (executing a) = executing a
rouse finished = finished
rouse undefined = undefined

-- The mutex is held between two steps.
abbrev pub holds : RunPc → Bool
holds decided = true
holds _ = false

module _ (q : PriorityQueue) where
  open q use {Heap, contents, no_items, empty, push, top, pop}

  -- `class priority_scheduler`, and a history, newest first: what was posted, what was executed, and
  -- what was taken from the queue since the last call of `post`.
  pub record Scheduler : Type 0 where
    pub queue : Heap
    pub stopped : Bool
    pub pc : RunPc
    pub posted : List Item
    pub executed : List Item
    pub batch : List Item
    pub revived : Bool  -- an executor's constructor has reset a `stopped_` that was set

  -- `hasWork`
  abbrev pub has_work : Scheduler → Bool
  has_work s = s.stopped || not (empty s.queue)

  -- `queue_.top()`, `queue_.pop()`, `lock.unlock()`
  abbrev pub take : Scheduler → Option Item → Scheduler
  take s none = record s { pc = undefined }
  take s (some a) = record s { queue = pop s.queue; pc = executing a; batch = a ∷ s.batch }

  -- One step of `run`
  unfoldable pub run : Scheduler → RunPc → Option Scheduler
  run s outside = some (record s { pc = locking })
  run s locking = some (record s { pc = if has_work s then decided else waiting })
  run s waiting = none
  run s woken = some (record s { pc = if has_work s then decided else waiting })
  run s decided = some (if s.stopped then record s { pc = finished } else take s (top s.queue))
  run s (executing a) = some (record s { pc = locking; executed = a ∷ s.executed })
  run s finished = none
  run s undefined = none

  -- `post`, which `dispatch` and `defer` call, by an executor of this priority
  unfoldable pub post : Scheduler → ℕ → ℕ → Option Scheduler
  post s name priority =
      let a : Item = record { name = name; priority = priority } in
      if holds s.pc
      then none
      else some
          (record s { queue = push a s.queue; pc = rouse s.pc; posted = a ∷ s.posted; batch = [] })

  unfoldable pub stop : Scheduler → Option Scheduler
  stop s = if holds s.pc then none else some (record s { stopped = true; pc = rouse s.pc })

  -- `get_executor`, and so the constructor of `executor_type`
  unfoldable pub get_executor : Scheduler → Scheduler
  get_executor s = record s { stopped = false; revived = s.revived || s.stopped }

  -- One step; `none` if it cannot be made.
  unfoldable pub step : Action → Scheduler → Option Scheduler
  unfolding run post stop get_executor
  step runs s = run s s.pc
  step stirs s = some (record s { pc = rouse s.pc })
  step stops s = stop s
  step gets_executor s = some (get_executor s)
  step (posts name priority) s = post s name priority

  -- A new scheduler. `stopped_` has no initialiser: it is what the memory held.
  abbrev pub init : Bool → Scheduler
  init stopped = record {
    queue = no_items;
    stopped = stopped;
    pc = outside;
    posted = [];
    executed = [];
    batch = [];
    revived = false;
  }

  pub data Reach (stopped : Bool) : Scheduler → Type 0 where
    start : Reach stopped (init stopped)
    next : {s t : Scheduler} (a : Action) → Reach stopped s → step a s ≡ some t → Reach stopped t
