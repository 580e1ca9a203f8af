-- ===== src/Posix/Pool/Wakeup.antt =====
-- posix/threadpool.cpp: `idle_notification` takes no lock, so a signal may be lost.
use queued_thread_pool.Prelude.{
  ℕ, zero, suc, ◌≡◌, refl, true, none, some, List, [], ◌∷◌, ◌++◌, arith,
}
use queued_thread_pool.Posix.Pool.State.{System, is_idle}
use queued_thread_pool.Posix.Pool.System.{
  Action, execute_by_client, execute_by_task, worker_runs, dispatcher_runs, step, run, init, times,
  or_init, Reach, start,
}
use queued_thread_pool.Posix.Pool.After.{run-Reach}

-- The task manager goes to sleep, and so does the dispatcher; two tasks arrive; the dispatcher hands over
-- the first and finds the task manager busy with it; before the dispatcher is in `thread.wait()`,
-- the task manager executes the task and signals.
schedule : ℕ → ℕ → List Action
schedule a b =
    times 3 (worker_runs 0)
    ++ (times 3 dispatcher_runs
        ++ (execute_by_client a
            ∷ execute_by_client b
            ∷ (times 12 dispatcher_runs ++ (times 6 (worker_runs 0) ++ times 1 dispatcher_runs))))

abbrev left : ℕ → ℕ → System
left a b = or_init 1 (run (schedule a b) (init 1 (λ _. true)))

left-run : (a b : ℕ) → run (schedule a b) (init 1 (λ _. true)) ≡ some (left a b)
unfolding run schedule
left-run a b = refl

workers-none : (a b j : ℕ) → step (worker_runs j) (left a b) ≡ none
unfolding run schedule
workers-none a b zero = refl
workers-none a b (suc j) = ground arith

calls-none : (a b j u : ℕ) → step (execute_by_task j u) (left a b) ≡ none
unfolding run schedule
calls-none a b zero u = refl
calls-none a b (suc j) u = ground arith

-- A pool with one task manager can be brought into a state in which the first of two tasks has been
-- executed, the task manager is idle, the second task waits in the queue, and none of the pool's threads
-- can move (a spurious wakeup aside): the signal was sent while the dispatcher was not yet waiting for it.
pub lost_wakeup :
    (a b : ℕ)
    → (s : System) × Reach 1 (λ _. true) s
      × (s.executed ≡ a ∷ [])
      × (s.queue ≡ b ∷ [])
      × (is_idle (s.workers 0) ≡ true)
      × (step dispatcher_runs s ≡ none)
      × ((j : ℕ) → step (worker_runs j) s ≡ none)
      × ((j u : ℕ) → step (execute_by_task j u) s ≡ none)
unfolding run schedule
lost_wakeup a b = (
  left a b,
  run-Reach (schedule a b) start (left-run a b),
  refl,
  refl,
  refl,
  refl,
  workers-none a b,
  calls-none a b,
)
