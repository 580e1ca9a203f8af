-- ===== src/Posix/Pool/Worker.antt =====
-- `TaskManager::run`: one step of a task manager's thread. `none`: the thread cannot move.
use queued_thread_pool.Prelude.{
  ℕ, true, false, Option, none, some, [], ◌++◌, ◌∷◌, is_some, option_to_list, if◌then◌else◌, ◌&&◌,
  not,
}
use queued_thread_pool.Posix.Pool.State.{
  Worker, WorkerPc, System, starting, looping, running, calling, notifying, checking, waiting,
  woken, leaving, exited, put, idle_notification, execute_locked,
}

-- `if (task)` under `while (go)`
abbrev pub loop_pc : Worker → WorkerPc
loop_pc w = if w.go then (if is_some w.task then running else checking) else leaving

-- `while (go && !task) wait();`: pthread_cond_wait releases the mutex
abbrev pub check : Worker → Worker
check w =
    if w.go && not (is_some w.task)
    then record w { monitor = false; pc = waiting }
    else record w { pc = looping }

-- The task's `run()` has ended, by a return or by an exception that is caught; `delete task`.
unfoldable pub finish : ℕ → System → Worker → Option ℕ → Option System
finish i s w none = none
finish i s w (some t) = some (record (put s i (record w { task = none; pc = notifying })) {
  executed = s.executed ++ t ∷ [];
})

unfoldable pub run : ℕ → System → Worker → WorkerPc → Option System
unfolding finish execute_locked
run i s w starting =
    if w.monitor then none else some (put s i (record w { monitor = true; pc = looping }))
run i s w looping = some (put s i (record w { pc = loop_pc w }))
run i s w running = finish i s w w.task
run i s w (calling u) =
    if is_some s.owner then none else some (execute_locked (put s i (record w { pc = running })) u)
run i s w notifying = some (idle_notification (put s i (record w { pc = checking })))
run i s w checking = some (put s i (check w))
run i s w waiting = none
run i s w woken =
    if w.monitor then none else some (put s i (record w { monitor = true; pc = checking }))
run i s w leaving =
    some (record (put s i (record w { task = none; monitor = false; pc = exited })) {
      dropped = s.dropped ++ option_to_list w.task;
    })
run i s w exited = none

-- A running task calls `execute` on its own pool.
unfoldable pub call : ℕ → System → Worker → WorkerPc → ℕ → Option System
call i s w running u = some (put s i (record w { pc = calling u }))
call i s w _ u = none

-- A spurious wakeup, which pthread_cond_wait permits.
unfoldable pub stir : ℕ → System → Worker → WorkerPc → Option System
stir i s w waiting = some (put s i (record w { pc = woken }))
stir i s w _ = none
