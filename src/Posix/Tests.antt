-- ===== src/Posix/Tests.antt =====
-- Runs of the model of posix/threadpool.cpp, and its theorems at concrete states.
mod Objects
mod Queries
use queued_thread_pool.Prelude.{
  ◌&&◌, ℕ, ◌+◌, ◌*◌, ◌<◌, ◌≤◌, ◌≡◌, refl, Bool, true, false, none, some, List, [], ◌∷◌, ◌++◌, arith,
  count, weigh,
}
use queued_thread_pool.Posix.Clock.{
  deadline, deadline_exact, sleep_interval, sleep_interval_exact, nanoseconds,
}
use queued_thread_pool.Posix.Pool.State.{
  is_idle, System, calling, exited, dispatcher, scanning, destroyed, done,
}
use queued_thread_pool.Posix.Pool.System.{
  Action, execute_by_client, execute_by_task, worker_runs, dispatcher_runs, shutdown_runs, step,
  run, init, times, or_init, Reach, start,
}
use queued_thread_pool.Posix.Pool.After.{run-Reach}
use queued_thread_pool.Posix.Pool.Flow.{pending}
use queued_thread_pool.Posix.Pool.Account.{bears}
use queued_thread_pool.Posix.Pool.Locks.{dispatching, terminating}
use queued_thread_pool.Posix.Pool.Safety.{
  fifo, task_account, mutual_exclusion, running_blocks_execute,
}
use queued_thread_pool.Posix.Pool.Termination.{
  stopped_stays_stopped, task_managers_end, destruction_complete,
}
use queued_thread_pool.Posix.Pool.Wakeup.{lost_wakeup}
use queued_thread_pool.Posix.Pool.Deadlock.{reentrant_deadlock}

deadline_exact_example :
    ((deadline (record { tv_sec = 5; tv_nsec = 999999999 }) 1501).tv_nsec < 1000000000)
    × (nanoseconds (deadline (record { tv_sec = 5; tv_nsec = 999999999 }) 1501)
        ≤ 5999999999 + 1501 * 1000000)
    × (5999999999 + 1501 * 1000000
        < nanoseconds (deadline (record { tv_sec = 5; tv_nsec = 999999999 }) 1501) + 1000000)
deadline_exact_example =
    deadline_exact (record { tv_sec = 5; tv_nsec = 999999999 }) 1501 (omega arith)

sleep_interval_1999 :
    ((sleep_interval 1999 2000000).tv_nsec < 1000000000)
    × (nanoseconds (sleep_interval 1999 2000000) ≡ 1999 * 1000000 + 2000000)
sleep_interval_1999 = sleep_interval_exact 1999 2000000

abbrev all : ℕ → Bool
all i = true

-- Both task managers and the dispatcher go to sleep.
abbrev settle : List Action
settle = times 3 (worker_runs 0) ++ (times 3 (worker_runs 1) ++ times 3 dispatcher_runs)

-- Task 5 is running under task manager 0, and the dispatcher asks this one whether it can take task 6.
abbrev to_busy : List Action
to_busy =
    settle
    ++ (execute_by_client 5
        ∷ execute_by_client 6
        ∷ (times 10 dispatcher_runs ++ times 3 (worker_runs 0)))

abbrev busy : System
busy = or_init 2 (run to_busy (init 2 all))

-- The running task calls `execute 9` on its own pool.
abbrev to_stuck : List Action
to_stuck = to_busy ++ execute_by_task 0 9 ∷ []

abbrev stuck : System
stuck = or_init 2 (run to_stuck (init 2 all))

-- Task 5 is executed; task 6 arrives just before the destructor stops the pool.
abbrev to_stopped : List Action
to_stopped =
    settle
    ++ (execute_by_client 5
        ∷ (times 10 dispatcher_runs
            ++ (times 6 (worker_runs 0)
                ++ (times 2 dispatcher_runs ++ execute_by_client 6 ∷ times 5 shutdown_runs))))

abbrev stopped : System
stopped = or_init 2 (run to_stopped (init 2 all))

-- The destructor returns.
abbrev to_end : List Action
to_end =
    to_stopped
    ++ (times 4 (worker_runs 0)
        ++ (times 2 shutdown_runs
            ++ (times 4 (worker_runs 1)
                ++ (times 3 shutdown_runs ++ (times 3 dispatcher_runs ++ times 2 shutdown_runs)))))

abbrev end : System
end = or_init 2 (run to_end (init 2 all))

busy-run : run to_busy (init 2 all) ≡ some busy
unfolding run
busy-run = refl

stuck-run : run to_stuck (init 2 all) ≡ some stuck
unfolding run
stuck-run = refl

stopped-run : run to_stopped (init 2 all) ≡ some stopped
unfolding run
stopped-run = refl

end-run : run to_end (init 2 all) ≡ some end
unfolding run
end-run = refl

busy_reached : Reach 2 all busy
busy_reached = run-Reach to_busy start busy-run

stuck_reached : Reach 2 all stuck
stuck_reached = run-Reach to_stuck start stuck-run

stopped_reached : Reach 2 all stopped
stopped_reached = run-Reach to_stopped start stopped-run

end_reached : Reach 2 all end
end_reached = run-Reach to_end start end-run

end_history : (end.executed ≡ 5 ∷ []) × (end.drained ≡ 6 ∷ []) × (end.shutdown_pc ≡ destroyed)
unfolding run
end_history = (refl, refl, refl)

fifo_example : busy.submitted ≡ 5 ∷ 6 ∷ []
unfolding run
fifo_example = fifo busy_reached

task_account_example :
    count 5 busy.submitted
    ≡ count 5 busy.executed
      + count 5 busy.dropped
      + count 5 busy.drained
      + weigh (bears 5) 2 busy.workers
      + count 5 (pending busy.dispatcher_pc busy.queue)
task_account_example = task_account busy_reached 5

mutual_exclusion_example :
    (busy.owner ≡ some dispatcher)
    × (dispatching busy.dispatcher_pc && terminating busy.shutdown_pc ≡ false)
    × ((busy.workers 0).monitor ≡ true)
unfolding run
mutual_exclusion_example = mutual_exclusion busy_reached 0

running_blocks_there : (step dispatcher_runs busy ≡ none) × (step (execute_by_client 7) busy ≡ none)
unfolding run
running_blocks_there = running_blocks_execute busy_reached 6 0 7 (omega arith) refl refl

reentrant_deadlock_example :
    (stuck.dispatcher_pc ≡ scanning 6 0)
    × ((stuck.workers 0).pc ≡ calling 9)
    × (stuck.queue ≡ stuck.queue)
unfolding run
reentrant_deadlock_example =
    reentrant_deadlock stuck_reached 0 6 9 (omega arith) refl refl [] stuck refl

stopped_stays_stopped_example :
    (stopped.go ≡ false) × (stopped.submitted ≡ 5 ∷ 6 ∷ []) × (stopped.dispatched ≡ 5 ∷ [])
unfolding run
stopped_stays_stopped_example = stopped_stays_stopped stopped_reached refl (worker_runs 0) refl

task_managers_end_example : ((end.workers 1).pc ≡ exited) × ((end.workers 1).task ≡ none)
unfolding run
task_managers_end_example = task_managers_end end_reached refl 1 (omega arith)

destruction_complete_example :
    (end.dispatcher_pc ≡ done)
    × (end.queue ≡ [])
    × (count 6 end.submitted ≡ count 6 end.executed + count 6 end.dropped + count 6 end.drained)
unfolding run
destruction_complete_example = destruction_complete end_reached refl 6

lost_wakeup_example :
    (s : System) × Reach 1 (λ _. true) s
    × (s.executed ≡ 7 ∷ [])
    × (s.queue ≡ 8 ∷ [])
    × (is_idle (s.workers 0) ≡ true)
    × (step dispatcher_runs s ≡ none)
    × ((j : ℕ) → step (worker_runs j) s ≡ none)
    × ((j u : ℕ) → step (execute_by_task j u) s ≡ none)
lost_wakeup_example = lost_wakeup 7 8
