-- ===== src/Posix/Tests/Queries.antt =====
-- The theorems on `is_idle` and `is_busy` of posix/threadpool.cpp, at concrete states.
use queued_thread_pool.Prelude.{◌+◌, ◌≡◌, refl, true, some, List, [], ◌∷◌, ◌++◌, count}
use queued_thread_pool.Posix.Pool.State.{System}
use queued_thread_pool.Posix.Pool.System.{
  Action, execute_by_client, worker_runs, dispatcher_runs, run, init, times, or_init, Reach, start,
}
use queued_thread_pool.Posix.Pool.After.{run-Reach}
use queued_thread_pool.Posix.Pool.Queries.{is_idle, is_idle_sound}
use queued_thread_pool.Posix.Tests.{all, settle}

-- Task 5 has been executed, and every thread of the pool sleeps.
abbrev to_quiet : List Action
to_quiet =
    settle
    ++ (execute_by_client 5
        ∷ (times 10 dispatcher_runs ++ (times 6 (worker_runs 0) ++ times 2 dispatcher_runs)))

abbrev quiet : System
quiet = or_init 2 (run to_quiet (init 2 all))

quiet-run : run to_quiet (init 2 all) ≡ some quiet
unfolding run
quiet-run = refl

quiet_reached : Reach 2 all quiet
quiet_reached = run-Reach to_quiet start quiet-run

quiet_idle : (is_idle quiet ≡ some true) × (quiet.executed ≡ 5 ∷ [])
unfolding is_idle run
quiet_idle = (refl, refl)

is_idle_sound_example : count 5 quiet.submitted ≡ count 5 quiet.executed + count 5 quiet.dropped
unfolding run
is_idle_sound_example = is_idle_sound quiet_reached refl quiet_idle.0 5
