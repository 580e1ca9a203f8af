-- ===== src/PingPong/Tests.antt =====
-- perf_condition_variable.cpp: runs with two consumers and two iterations, and the theorems there.
use queued_thread_pool.Prelude.{
  ℕ, zero, suc, ◌<◌, ◌≡◌, refl, false, List, [], ◌∷◌, ◌++◌, follow, or_else, followed, weigh,
}
use queued_thread_pool.PingPong.{
  System, ProducerPc, Action, produces, consumes, step, init, Reach, start, next,
}
use queued_thread_pool.PingPong.Invariant.{caught_up, Near}
use queued_thread_pool.PingPong.Rounds.{rounds_in_step}
use queued_thread_pool.PingPong.Progress.{is_over, Unstuck, never_stuck}

abbrev times : ℕ → Action → List Action
times zero a = []
times (suc n) a = a ∷ times n a

abbrev at_two : List Action → System
at_two l = or_else (init 2 2) (follow (step 2 2) l (init 2 2))

-- Consumer 0 waits, the producer begins a round, consumer 1 takes part, and the producer waits.
abbrev to_waiting : List Action
to_waiting =
    times 2 (consumes 0) ++ (times 2 produces ++ (times 2 (consumes 1) ++ times 3 produces))

abbrev met : System
met = at_two to_waiting

met_reached : Reach 2 2 met
unfolding step
met_reached = followed (step 2 2) (Reach 2 2) (λ a s t r e. next a r e) to_waiting start refl

met-producer : met.producer ≡ ProducerPc.waiting 0
unfolding step
met-producer = refl

met-unfinished : is_over 2 met met.producer ≡ false
unfolding step
met-unfinished = refl

rounds_in_step_example :
    (met.semaphore ≡ weigh (caught_up met.counter) 2 met.consumers)
    × ((j : ℕ) → j < 2 → Near met.counter (met.consumers j).counter)
rounds_in_step_example = rounds_in_step met_reached

never_stuck_example : Unstuck 2 2 met
never_stuck_example = never_stuck met_reached met-unfinished
