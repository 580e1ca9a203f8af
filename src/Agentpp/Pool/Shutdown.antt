-- ===== src/Agentpp/Pool/Shutdown.antt =====
-- `ThreadPool::terminate` and the destruction of `taskList`: one step of the thread that does both.
use queued_thread_pool.Prelude.{
  ℕ, suc, Bool, true, false, Option, none, some, ltb, is_some, if◌then◌else◌,
}
use queued_thread_pool.Agentpp.Pool.State.{
  Manager, ManagerPc, Pool, ShutdownPc, serving, stopping, deleting, joining, destroyed, terminator,
  put, wake,
}

abbrev pub has_exited : ManagerPc → Bool
has_exited ManagerPc.exited = true
has_exited _ = false

-- `TaskManager::stop`, which takes no lock and wakes nobody
abbrev pub stop : Manager → Manager
stop m = record m { go = false }

-- The locked part of `~TaskManager`
abbrev pub halt : Pool → ℕ → Manager → Option Pool
halt s i m =
    if m.monitor
    then none
    else some
        (record (put s i (record m { go = false; pc = wake m.pc })) { shutdown_pc = joining i })

-- `thread.join()`, which returns when the thread has ended
abbrev join : Pool → ℕ → Manager → Option Pool
join s i m = if has_exited m.pc then some (record s { shutdown_pc = deleting (suc i) }) else none

unfoldable pub destroy : Pool → ShutdownPc → Option Pool
destroy s serving =
    if is_some s.owner
    then none
    else some (record s { owner = some terminator; shutdown_pc = stopping 0 })
destroy s (stopping i) =
    if ltb i s.size
    then some (record (put s i (stop (s.managers i))) { shutdown_pc = stopping (suc i) })
    else some (record s { owner = none; shutdown_pc = deleting 0 })
destroy s (deleting i) =
    if ltb i s.size then halt s i (s.managers i) else some (record s { shutdown_pc = destroyed })
destroy s (joining i) = join s i (s.managers i)
destroy s destroyed = none

-- The destructor, called without `terminate`.
unfoldable pub delete_now : Pool → ShutdownPc → Option Pool
delete_now s serving = some (record s { shutdown_pc = deleting 0 })
delete_now s _ = none
