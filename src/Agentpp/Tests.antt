-- ===== src/Agentpp/Tests.antt =====
-- Runs of the model of threadpool.cpp, and its theorems at concrete states.
mod Objects
use queued_thread_pool.Prelude.{
  ℕ, zero, suc, ◌+◌, ◌<◌, ◌≡◌, refl, ◌||◌, Bool, true, false, Option, none, some, List, [], ◌∷◌,
  ◌++◌, arith, is_some, count, weigh,
}
use queued_thread_pool.Agentpp.Pool.State.{
  ManagerPc, Pool, ClientPc, setting, destroyed, Holder, client,
}
use queued_thread_pool.Agentpp.Pool.System.{
  Action, manager_runs, calls, client_runs, shutdown_runs, step, run_all, times, init, Reach, start,
}
use queued_thread_pool.Agentpp.Pool.After.{run_all-Reach}
use queued_thread_pool.Agentpp.Pool.Invariant.{
  bears, inside, is_client, is_terminator, is_stopping, working,
}
use queued_thread_pool.Agentpp.Pool.Safety.{
  pool_account, pool_exclusion, holder_moves, step_of, some_holder_moves, borne_task_moves,
}
use queued_thread_pool.Agentpp.Pool.Deadlock.{lock_deadlock}
use queued_thread_pool.Agentpp.Pool.Termination.{pool_threads_end}
use queued_thread_pool.Agentpp.Pool.Loss.{lost_task, in_call, is_setting, execute_never_returns}

-- Both task managers wait; client 0 hands task 5 to the first; client 1 holds the pool's mutex with task
-- 6, and has found the second idle.
abbrev to_busy : List Action
to_busy =
    times 3 (manager_runs 0)
    ++ (times 3 (manager_runs 1)
        ++ (calls 0 5 ∷ times 3 (client_runs 0) ++ (calls 1 6 ∷ times 3 (client_runs 1))))

abbrev or_init : Bool → ℕ → Option Pool → Pool
or_init v n none = init v n
or_init v n (some s) = s

abbrev busy : Pool
busy = or_init true 2 (run_all to_busy (init true 2))

busy-run : run_all to_busy (init true 2) ≡ some busy
unfolding run_all
busy-run = refl

busy_reached : Reach true 2 busy
busy_reached = run_all-Reach to_busy start busy-run

-- The task manager has executed task 5 and is about to notify; client 1 is about to give it task 6.
abbrev to_crossed : List Action
to_crossed =
    times 3 (manager_runs 0)
    ++ (calls 0 5 ∷ times 3 (client_runs 0)
        ++ (times 4 (manager_runs 0) ++ (calls 1 6 ∷ times 2 (client_runs 1))))

abbrev crossed : Pool
crossed = or_init false 1 (run_all to_crossed (init false 1))

crossed-run : run_all to_crossed (init false 1) ≡ some crossed
unfolding run_all
crossed-run = refl

crossed_reached : Reach false 1 crossed
crossed_reached = run_all-Reach to_crossed start crossed-run

-- `terminate` has run and the only task manager has ended; then a client calls `execute`.
abbrev to_over : List Action
to_over =
    times 3 shutdown_runs ++ (times 4 (manager_runs 0) ++ (calls 4 7 ∷ times 2 (client_runs 4)))

abbrev over : Pool
over = or_init true 1 (run_all to_over (init true 1))

over-run : run_all to_over (init true 1) ≡ some over
unfolding run_all
over-run = refl

over_reached : Reach true 1 over
over_reached = run_all-Reach to_over start over-run

pool_account_example :
    count 5 busy.accepted
    ≡ count 5 busy.executed + count 5 busy.dropped + weigh (bears 5) 2 busy.managers
pool_account_example = pool_account busy_reached 5

pool_exclusion_example :
    (inside (busy.clients 1) ≡ is_client busy.owner 1)
    × (is_stopping busy.shutdown_pc ≡ is_terminator busy.owner)
    × ((busy.managers 0).monitor ≡ working (busy.managers 0).pc)
pool_exclusion_example = pool_exclusion busy_reached 1 0

holder_moves_example : is_some (step (step_of (client 1)) busy) ≡ true
unfolding run_all
holder_moves_example = holder_moves busy_reached (client 1) refl

borne_task_moves_example :
    some_holder_moves busy.owner busy || is_some (step (manager_runs 0) busy) ≡ true
unfolding run_all
borne_task_moves_example = borne_task_moves busy_reached 0 (omega arith) refl refl

lock_deadlock_example :
    (crossed.clients 1 ≡ setting 6 0)
    × ((crossed.managers 0).pc ≡ ManagerPc.notifying)
    × (crossed.owner ≡ some (client 1))
unfolding run_all
lock_deadlock_example = lock_deadlock crossed_reached 1 6 0 refl refl [] crossed refl

lost_task_example :
    (s : Pool) × Reach true 1 s
    × (s.shutdown_pc ≡ destroyed)
    × (s.accepted ≡ 7 ∷ [])
    × (s.executed ≡ [])
    × (s.dropped ≡ [])
lost_task_example = lost_task true 7

over_gone : (i : ℕ) → i < 1 → (over.managers i).alive ≡ false
unfolding run_all
over_gone zero h = refl
over_gone (suc i) h = absurd (omega arith)

over_unset : (d : ℕ) → is_setting (over.clients d) ≡ false
unfolding run_all
over_unset d = ground arith

execute_never_returns_example : (in_call (over.clients 4) ≡ true) × (over.accepted ≡ over.accepted)
unfolding run_all
execute_never_returns_example =
    execute_never_returns over_reached over_gone over_unset 4 refl [] over refl

-- `terminate`, the end of the task manager, and its destruction.
abbrev to_gone : List Action
to_gone = times 3 shutdown_runs ++ (times 4 (manager_runs 0) ++ times 3 shutdown_runs)

abbrev gone : Pool
gone = or_init true 1 (run_all to_gone (init true 1))

gone-run : run_all to_gone (init true 1) ≡ some gone
unfolding run_all
gone-run = refl

gone_reached : Reach true 1 gone
gone_reached = run_all-Reach to_gone start gone-run

pool_threads_end_example :
    ((gone.managers 0).pc ≡ ManagerPc.exited)
    × ((gone.managers 0).alive ≡ false)
    × ((gone.managers 0).monitor ≡ false)
unfolding run_all
pool_threads_end_example = pool_threads_end gone_reached refl 0 (omega arith)
