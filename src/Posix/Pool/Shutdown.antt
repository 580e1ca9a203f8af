-- ===== src/Posix/Pool/Shutdown.antt =====
-- `~QueuedThreadPool` with `QueuedThreadPool::terminate`, `ThreadPool::terminate`, `EmptyTaskList`,
-- `~TaskManager` and `EmptyQueue`: one step of the thread that destroys the pool.
use queued_thread_pool.Prelude.{
  ℕ, suc, Bool, true, false, Option, none, some, [], ◌++◌, is_some, ltb, if◌then◌else◌,
}
use queued_thread_pool.Posix.Pool.State.{
  Worker, WorkerPc, exited, System, DispatcherPc, done, ShutdownPc, serving, stopping, deleting,
  joining, clearing, joining_dispatcher, emptying, destroyed, shutdown, put, wake, rouse,
}

-- `(*cur)->stop()`
stop : System → ℕ → Worker → Option System
stop s i w =
    if w.monitor
    then none
    else some (record (put s i (record w { go = false })) { shutdown_pc = stopping (suc i) })

-- the block of `~TaskManager`: `Lock l(*this); go = false; notify();`
halt : System → ℕ → Worker → Option System
halt s i w =
    if w.monitor
    then none
    else some
        (record (put s i (record w { go = false; pc = wake w.pc })) { shutdown_pc = joining i })

abbrev pub has_exited : WorkerPc → Bool
has_exited exited = true
has_exited _ = false

-- `thread.join()` in `~TaskManager`: `pthread_join` only if the status is RUNNING
join : System → ℕ → Worker → Option System
join s i w =
    if w.alive
    then (if has_exited w.pc
        then some (record (put s i (record w { alive = false })) { shutdown_pc = deleting (suc i) })
        else none)
    else some (record s { shutdown_pc = deleting (suc i) })

abbrev pub is_done : DispatcherPc → Bool
is_done done = true
is_done _ = false

-- `QueuedThreadPool::terminate`, up to its call of `ThreadPool::terminate`
terminate : System → Option System
terminate s =
    if is_some s.owner
    then none
    else some (record s {
      go = false;
      owner = some shutdown;
      dispatcher_pc = rouse s.dispatcher_pc;
      shutdown_pc = stopping 0;
    })

-- `ThreadPool::terminate`, at task manager `i` of its loop; then `EmptyTaskList()`
terminate_tasks : System → ℕ → Option System
unfolding stop
terminate_tasks s i =
    if ltb i s.size then stop s i (s.workers i) else some (record s { shutdown_pc = deleting 0 })

-- `EmptyTaskList`, at task manager `i` of its loop
empty_task_list : System → ℕ → Option System
unfolding halt
empty_task_list s i =
    if ltb i s.size then halt s i (s.workers i) else some (record s { shutdown_pc = clearing })

-- `EmptyQueue`: its loop runs under the lock of `thread`, one step of this thread.
empty_queue : System → Option System
empty_queue s =
    if is_some s.owner
    then none
    else some (record s { queue = []; drained = s.drained ++ s.queue; shutdown_pc = destroyed })

-- `~QueuedThreadPool`. The second `ThreadPool::terminate` meets an empty task list.
unfoldable pub destroy : System → ShutdownPc → Option System
unfolding terminate terminate_tasks empty_task_list join empty_queue
destroy s serving = terminate s
destroy s (stopping i) = terminate_tasks s i
destroy s (deleting i) = empty_task_list s i
destroy s (joining i) = join s i (s.workers i)
destroy s clearing = some (record s { size = 0; owner = none; shutdown_pc = joining_dispatcher })
destroy s joining_dispatcher =
    if is_done s.dispatcher_pc then some (record s { shutdown_pc = emptying }) else none
destroy s emptying = empty_queue s
destroy s destroyed = none
