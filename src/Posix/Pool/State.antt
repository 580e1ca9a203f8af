-- ===== src/Posix/Pool/State.antt =====
-- The shared objects of a QueuedThreadPool. Tasks are numbers (the addresses of Runnables that are
-- not null). A pthread mutex is the fact that somebody holds it; a thread in pthread_cond_wait has
-- a program counter of its own, from which a signal or a spurious wakeup moves it on.
use queued_thread_pool.Prelude.{
  ℕ, Bool, Option, none, some, List, [], ◌++◌, ◌∷◌, replace, is_some, if◌then◌else◌, ◌&&◌, not,
}

-- Where a task manager's thread stands in `TaskManager::run`.
pub data WorkerPc : Type 0 where
  starting : WorkerPc  -- before `Lock l(*this)`
  looping : WorkerPc  -- at `while (go)`, then `if (task)`
  running : WorkerPc  -- inside `task->run()`
  calling : ℕ → WorkerPc  -- inside `task->run()`, which has called `execute` on the pool
  notifying : WorkerPc  -- at `threadPool->idle_notification()`
  checking : WorkerPc  -- at `while (go && !task)`
  waiting : WorkerPc  -- in `wait()`, not woken
  woken : WorkerPc  -- in `wait()`, before it has the mutex back
  leaving : WorkerPc  -- after the loop
  exited : WorkerPc

-- `class TaskManager`: its own mutex, `go`, `task`, and whether its thread's status is RUNNING.
pub record Worker : Type 0 where
  pub monitor : Bool
  pub go : Bool
  pub task : Option ℕ
  pub alive : Bool
  pub pc : WorkerPc

-- Where the pool's own thread stands in `QueuedThreadPool::run`.
pub data DispatcherPc : Type 0 where
  starting : DispatcherPc  -- before `Lock l(thread)`
  outer : DispatcherPc  -- at `while (go && !queue.empty())`
  inner : ℕ → DispatcherPc  -- at `while (go && t)`
  scanning : ℕ → ℕ → DispatcherPc  -- in `assign(t)`, at task manager `i`: before `is_idle()`
  setting : ℕ → ℕ → DispatcherPc  -- in `assign(t)`, at task manager `i`: before `set_task(t)`
  popping : DispatcherPc  -- at `queue.pop()`
  parking : ℕ → DispatcherPc  -- at `thread.wait()` under `while (go && t)`
  idling : DispatcherPc  -- at `while (go && queue.empty())`
  asleep : Option ℕ → DispatcherPc  -- in `thread.wait()`, with the task at hand
  roused : Option ℕ → DispatcherPc  -- in `thread.wait()`, before it has the mutex back
  again : DispatcherPc  -- at the `while (go)` that ends the `do`
  done : DispatcherPc

-- Where the thread that destroys the pool stands in `~QueuedThreadPool` and the calls in it.
pub data ShutdownPc : Type 0 where
  serving : ShutdownPc  -- the destructor is not yet called
  stopping : ℕ → ShutdownPc  -- in the loop of `(*cur)->stop()`
  deleting : ℕ → ShutdownPc  -- `EmptyTaskList`, before the lock of `~TaskManager`
  joining : ℕ → ShutdownPc  -- `EmptyTaskList`, at the `thread.join()` of `~TaskManager`
  clearing : ShutdownPc  -- `taskList.clear()` and the end of `terminate`
  joining_dispatcher : ShutdownPc  -- at the `thread.join()` of `~QueuedThreadPool`
  emptying : ShutdownPc  -- at `EmptyQueue()`
  destroyed : ShutdownPc

-- The threads that keep the mutex of `thread` across more than one step.
pub data Party : Type 0 where
  dispatcher shutdown : Party

-- `class QueuedThreadPool`, its threads' program counters, and a history of every task.
pub record System : Type 0 where
  pub size : ℕ  -- `taskList.size()`
  pub workers : ℕ → Worker  -- `taskList`
  pub queue : List ℕ
  pub go : Bool
  pub owner : Option Party  -- the holder of the mutex of `thread`
  pub dispatcher_pc : DispatcherPc
  pub shutdown_pc : ShutdownPc
  pub submitted : List ℕ  -- pushed by `execute`
  pub refused : List ℕ  -- deleted by `execute` on a stopped pool
  pub dispatched : List ℕ  -- accepted by `set_task`
  pub executed : List ℕ  -- `run()` has returned, or thrown
  pub dropped : List ℕ  -- deleted at the end of `TaskManager::run`
  pub drained : List ℕ  -- deleted by `EmptyQueue`

-- `pthread_cond_signal` on the condition of `thread`, on which only the dispatcher waits.
abbrev pub rouse : DispatcherPc → DispatcherPc
rouse (asleep o) = roused o
rouse starting = starting
rouse outer = outer
rouse (inner t) = inner t
rouse (scanning t i) = scanning t i
rouse (setting t i) = setting t i
rouse popping = popping
rouse (parking t) = parking t
rouse idling = idling
rouse (roused o) = roused o
rouse again = again
rouse done = done

-- `pthread_cond_signal` on a task manager's condition, on which only its thread waits.
abbrev pub wake : WorkerPc → WorkerPc
wake waiting = woken
wake starting = starting
wake looping = looping
wake running = running
wake (calling u) = calling u
wake notifying = notifying
wake checking = checking
wake woken = woken
wake leaving = leaving
wake exited = exited

-- `QueuedThreadPool::idle_notification`, which takes no lock
abbrev pub idle_notification : System → System
idle_notification s = record s { dispatcher_pc = rouse s.dispatcher_pc }

abbrev pub put : System → ℕ → Worker → System
put s i w = record s { workers = replace s.workers i w }

-- `QueuedThreadPool::execute`, once it has the mutex of `thread`
unfoldable pub execute_locked : System → ℕ → System
execute_locked s t =
    if s.go
    then record s {
      queue = s.queue ++ t ∷ [];
      dispatcher_pc = rouse s.dispatcher_pc;
      submitted = s.submitted ++ t ∷ [];
    }
    else record s { refused = s.refused ++ t ∷ [] }

-- `QueuedThreadPool::execute`; `none` while another thread holds the mutex
unfoldable pub execute : System → ℕ → Option System
unfolding execute_locked
execute s t = if is_some s.owner then none else some (execute_locked s t)

-- `TaskManager::is_idle`, the value read under the task manager's mutex
abbrev pub is_idle : Worker → Bool
is_idle w = not (is_some w.task) && w.alive
