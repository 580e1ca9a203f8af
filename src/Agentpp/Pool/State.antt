-- ===== src/Agentpp/Pool/State.antt =====
-- The shared objects of a ThreadPool of threadpool.cpp. Tasks are numbers (the addresses of Runnables
-- that are not null). A boost::mutex is the fact that somebody holds it; a thread that waits on a
-- condition variable has a program counter of its own.
use queued_thread_pool.Prelude.{ℕ, Bool, Option, List, replace, is_some, ◌&&◌, not}

-- Where a task manager's thread stands in `TaskManager::run` and in `Thread::thread_starter`.
pub data ManagerPc : Type 0 where
  starting : ManagerPc  -- before `scoped_lock l(mutex)`
  looping : ManagerPc  -- at `while (go)`
  testing : ManagerPc  -- in `wait_until_condition`, at `while (!predicate())`
  deciding : ManagerPc  -- at `if (!go) break; if (task)`
  running : ManagerPc  -- inside `task->run()`
  notifying : ManagerPc  -- at the `Lock l(*this)` of `threadPool->idle_notification()`
  waiting : ManagerPc  -- in `cond.wait(lk)`, not woken
  woken : ManagerPc  -- in `cond.wait(lk)`, before it has the mutex back
  leaving : ManagerPc  -- after the loop
  ending : ManagerPc  -- at `thread->status = Thread::FINISHED`
  exited : ManagerPc

-- `class TaskManager`: its own mutex, `go`, `task`, and whether its thread's status is RUNNING.
pub record Manager : Type 0 where
  pub monitor : Bool
  pub go : Bool
  pub task : Option ℕ
  pub alive : Bool
  pub pc : ManagerPc

-- Where a client stands in `ThreadPool::execute`.
pub data ClientPc : Type 0 where
  away : ClientPc  -- not in a call
  entering : ℕ → ClientPc  -- before `Lock l(*this)`
  scanning : ℕ → ℕ → ClientPc  -- at task manager `i`: before `is_idle()`
  setting : ℕ → ℕ → ClientPc  -- at task manager `i`: before `set_task(t)`
  waiting : ℕ → ClientPc  -- in `wait_for(rand() % 113)`, the mutex released

-- Where the thread stands that calls `terminate`, and then the destructor.
pub data ShutdownPc : Type 0 where
  serving : ShutdownPc
  stopping : ℕ → ShutdownPc  -- in the loop of `(*cur)->stop()`
  deleting : ℕ → ShutdownPc  -- before the lock of `~TaskManager`
  joining : ℕ → ShutdownPc  -- at the `thread.join()` of `~TaskManager`
  destroyed : ShutdownPc

-- The threads that keep the pool's mutex across more than one step.
pub data Holder : Type 0 where
  client : ℕ → Holder
  terminator : Holder

-- `class ThreadPool`, the program counters, and a history of every task.
pub record Pool : Type 0 where
  pub try_lock : Bool  -- AGENTPP_SET_TASK_USE_TRY_LOCK is defined
  pub size : ℕ  -- `taskList.size()`
  pub managers : ℕ → Manager  -- `taskList`
  pub owner : Option Holder  -- the holder of the pool's mutex
  pub clients : ℕ → ClientPc
  pub shutdown_pc : ShutdownPc
  pub accepted : List ℕ  -- taken by `set_task`
  pub executed : List ℕ  -- `run()` has returned, or thrown
  pub dropped : List ℕ  -- deleted at the end of `TaskManager::run`

-- `cond.notify_one()` on a task manager's condition, on which only its thread waits.
abbrev pub wake : ManagerPc → ManagerPc
wake waiting = woken
wake starting = starting
wake looping = looping
wake testing = testing
wake deciding = deciding
wake running = running
wake notifying = notifying
wake woken = woken
wake leaving = leaving
wake ending = ending
wake exited = exited

-- `TaskManager::is_idle`, which takes no lock
abbrev pub is_idle : Manager → Bool
is_idle m = not (is_some m.task) && m.alive

abbrev pub put : Pool → ℕ → Manager → Pool
put s i m = record s { managers = replace s.managers i m }

abbrev pub move : Pool → ℕ → ClientPc → Pool
move s c pc = record s { clients = replace s.clients c pc }
