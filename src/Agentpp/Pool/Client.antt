-- ===== src/Agentpp/Pool/Client.antt =====
-- `ThreadPool::execute`: one step of a client. `none`: the client cannot move.
use queued_thread_pool.Prelude.{
  ℕ, suc, Option, none, some, [], ◌∷◌, ◌++◌, ltb, is_some, if◌then◌else◌, ◌||◌,
}
use queued_thread_pool.Agentpp.Pool.State.{
  Manager, Pool, ClientPc, away, entering, scanning, setting, waiting, client, put, move, wake,
  is_idle,
}

-- The task manager does not take the task: `execute` goes on with the next.
abbrev pub pass : Pool → ℕ → ℕ → ℕ → Pool
pass s c t i = move s c (scanning t (suc i))

-- The task manager takes the task, and `execute` returns.
abbrev pub take : Pool → ℕ → ℕ → ℕ → Manager → Pool
take s c t i m = record (put (move s c away) i (record m { task = some t; pc = wake m.pc })) {
  owner = none;
  accepted = s.accepted ++ t ∷ [];
}

-- `set_task(t)`, where it uses `try_lock`
abbrev pub try_set_task : Pool → ℕ → ℕ → ℕ → Manager → Option Pool
try_set_task s c t i m =
    if is_some m.task || m.monitor then some (pass s c t i) else some (take s c t i m)

-- `set_task(t)`, where it uses `Lock`: it blocks while the task manager's mutex is held
abbrev pub lock_set_task : Pool → ℕ → ℕ → ℕ → Manager → Option Pool
lock_set_task s c t i m =
    if m.monitor
    then none
    else if is_some m.task
    then some (pass s c t i)
    else some (take s c t i m)

abbrev pub set_task : Pool → ℕ → ℕ → ℕ → Manager → Option Pool
set_task s c t i m = if s.try_lock then try_set_task s c t i m else lock_set_task s c t i m

-- The loop over `taskList`, at task manager `i`; after the last, `wait_for` releases the mutex.
abbrev pub scan : Pool → ℕ → ℕ → ℕ → Manager → Option Pool
scan s c t i m =
    if ltb i s.size
    then (if is_idle m then some (move s c (setting t i)) else some (pass s c t i))
    else some (record (move s c (waiting t)) { owner = none })

-- A mutex taken, and the loop entered.
abbrev pub begin : Pool → ℕ → ℕ → Option Pool
begin s c t =
    if is_some s.owner
    then none
    else some (record (move s c (scanning t 0)) { owner = some (client c) })

unfoldable pub execute : ℕ → Pool → ClientPc → Option Pool
execute c s away = none
execute c s (entering t) = begin s c t
execute c s (scanning t i) = scan s c t i (s.managers i)
execute c s (setting t i) = set_task s c t i (s.managers i)
execute c s (waiting t) = begin s c t

-- A client that is not in a call calls `execute`.
unfoldable pub call : ℕ → Pool → ClientPc → ℕ → Option Pool
call c s away t = some (move s c (entering t))
call c s _ t = none
