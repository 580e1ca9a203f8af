-- ===== src/Posix/Direct/State.antt =====
-- posix/threadpool.cpp: the shared objects of a ThreadPool. The task managers are those of Posix/Pool.
use queued_thread_pool.Prelude.{
  ℕ, zero, suc, Bool, true, false, Option, none, some, List, replace, if◌then◌else◌, ◌||◌,
}
use queued_thread_pool.Posix.Pool.State.{Worker}

-- Where a client stands in `ThreadPool::execute`.
pub data ClientPc : Type 0 where
  away : ClientPc  -- not in a call
  entering : ℕ → ClientPc  -- before `Lock l(*this)`, with the task
  scanning : ℕ → ℕ → ClientPc  -- in the `for`, at task manager `i`: before `is_idle()`
  setting : ℕ → ℕ → ClientPc  -- in the `for`, at task manager `i`: before `set_task(t)`
  waiting : ℕ → ClientPc  -- in `wait()`, not woken
  woken : ℕ → ClientPc  -- in `wait()`, before it has the mutex back

-- Where the thread that calls `terminate` stands.
pub data TerminatePc : Type 0 where
  serving : TerminatePc  -- `terminate` is not yet called
  locking : TerminatePc  -- `terminate` is called, before `Lock l(*this)`
  stopping : ℕ → TerminatePc  -- in the loop of `(*cur)->stop()`
  deleting : ℕ → TerminatePc  -- `EmptyTaskList`, before the lock of `~TaskManager`
  joining : ℕ → TerminatePc  -- `EmptyTaskList`, at the `thread.join()` of `~TaskManager`
  clearing : TerminatePc  -- `taskList.clear()`
  telling : TerminatePc  -- at `notify()`
  ended : TerminatePc  -- `terminate` has returned, and can be called again

-- Who holds the mutex of the pool.
pub data Holder : Type 0 where
  client : ℕ → Holder
  terminator : Holder

-- `class ThreadPool`, the threads' program counters, and a history of every task.
pub record Direct : Type 0 where
  pub size : ℕ  -- `taskList.size()`
  pub workers : ℕ → Worker  -- `taskList`
  pub owner : Option Holder
  pub clients : ℕ → ClientPc
  pub terminate_pc : TerminatePc
  pub submitted : List ℕ  -- `execute` was called with it
  pub refused : List ℕ  -- deleted by `execute` on an empty pool
  pub executed : List ℕ  -- `run()` has returned, or thrown
  pub dropped : List ℕ  -- deleted at the end of `TaskManager::run`

abbrev pub put : Direct → ℕ → Worker → Direct
put s i w = record s { workers = replace s.workers i w }

abbrev pub move : Direct → ℕ → ClientPc → Direct
move s c p = record s { clients = replace s.clients c p }

-- A client in `wait()` is woken; no other moves.
abbrev pub rouse : ClientPc → ClientPc
rouse (waiting t) = woken t
rouse away = away
rouse (entering t) = entering t
rouse (scanning t i) = scanning t i
rouse (setting t i) = setting t i
rouse (woken t) = woken t

abbrev pub is_waiting : ClientPc → Bool
is_waiting (waiting t) = true
is_waiting _ = false

-- One of the first `m` clients is in `wait()`.
abbrev pub any_waiting : ℕ → (ℕ → ClientPc) → Bool
any_waiting zero f = false
any_waiting (suc m) f = is_waiting (f m) || any_waiting m f

-- `notify()` on the pool's condition: it wakes client `c`, who must be waiting unless nobody is.
abbrev pub notify : ℕ → ℕ → Direct → Option Direct
notify m c s =
    if is_waiting (s.clients c)
    then some (move s c (rouse (s.clients c)))
    else if any_waiting m s.clients
    then none
    else some s
