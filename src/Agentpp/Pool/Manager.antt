-- ===== src/Agentpp/Pool/Manager.antt =====
-- `TaskManager::run`: one step of a task manager's thread. `none`: the thread cannot move.
use queued_thread_pool.Prelude.{
  ℕ, Bool, true, false, Option, none, some, ◌++◌, is_some, option_to_list, if◌then◌else◌, ◌||◌, not,
}
use queued_thread_pool.Agentpp.Pool.State.{
  Manager, ManagerPc, Pool, starting, looping, testing, deciding, running, notifying, waiting,
  woken, leaving, ending, exited, put,
}

-- `has_task`, the predicate of the wait
abbrev has_task : Manager → Bool
has_task m = not m.go || is_some m.task

-- `while (!predicate()) cond.wait(lk)`: the wait releases the mutex
abbrev pub test : Manager → Manager
test m =
    if has_task m then record m { pc = deciding } else record m { monitor = false; pc = waiting }

-- `if (!go) break; if (task)`
abbrev pub decide_pc : Manager → ManagerPc
decide_pc m = if not m.go then leaving else if is_some m.task then running else looping

unfoldable pub run : ℕ → Pool → Manager → ManagerPc → Option Pool
run i s m starting =
    if m.monitor then none else some (put s i (record m { monitor = true; pc = looping }))
run i s m looping = some (put s i (record m { pc = if m.go then testing else leaving }))
run i s m testing = some (put s i (test m))
run i s m deciding = some (put s i (record m { pc = decide_pc m }))
run i s m running = some (record (put s i (record m { task = none; pc = notifying })) {
  executed = s.executed ++ option_to_list m.task;
})
run i s m notifying = if is_some s.owner then none else some (put s i (record m { pc = looping }))
run i s m waiting = none
run i s m woken =
    if m.monitor then none else some (put s i (record m { monitor = true; pc = testing }))
run i s m leaving =
    some (record (put s i (record m { task = none; monitor = false; pc = ending })) {
      dropped = s.dropped ++ option_to_list m.task;
    })
run i s m ending = some (put s i (record m { alive = false; pc = exited }))
run i s m exited = none

-- A spurious wakeup, which boost::condition_variable permits.
unfoldable pub stir : ℕ → Pool → Manager → ManagerPc → Option Pool
stir i s m waiting = some (put s i (record m { pc = woken }))
stir i s m _ = none
