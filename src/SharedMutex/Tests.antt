-- ===== src/SharedMutex/Tests.antt =====
-- shared_mutex.cpp: runs of the loops over a plain mutex, and the theorems there.
use queued_thread_pool.Prelude.{
  ℕ, zero, suc, ◌≡◌, ◌<◌, refl, Bool, true, false, List, [], ◌∷◌, ◌++◌, arith, follow, or_else,
  followed,
}
use queued_thread_pool.SharedMutex.Modes.{free, exclusive, together}
use queued_thread_pool.SharedMutex.Modes.Plain.{plain_mutex, mode_in}
use queued_thread_pool.SharedMutex.Loops.{reading, writing}
use queued_thread_pool.SharedMutex.System.{System, ended, step, init, Reach, start, next}
use queued_thread_pool.SharedMutex.Groups.{group, groups, no_assertion_fails, groups_follow}

abbrev Plain : Type 0
Plain = System plain_mutex

abbrev after_all : ℕ → List (ℕ × Bool) → Plain
after_all n l =
    or_else (init plain_mutex (group n groups))
      (follow (step plain_mutex) l (init plain_mutex (group n groups)))

abbrev by : ℕ → ℕ → List (ℕ × Bool)
by i zero = []
by i (suc n) = (i, true) ∷ by i n

-- Two threads are in `clockwise`, which both own the mutex shared; one gets it for upgrade, the other
-- gives it back, and the first is the exclusive owner and has written.
abbrev to_written : List (ℕ × Bool)
to_written =
    by 0 3 ++ (by 2 3 ++ ((0, false) ∷ (0, true) ∷ (2, false) ∷ (2, false) ∷ (2, true) ∷ by 0 3))

abbrev written : Plain
written = after_all 9 to_written

written_reached : Reach plain_mutex (group 9 groups) written
unfolding step together
written_reached =
    followed (step plain_mutex) (Reach plain_mutex (group 9 groups)) (λ a s t r e. next a r e)
      to_written start refl

written-state : written.state ≡ writing
unfolding step together
written-state = refl

written-mode : mode_in written.mutex 0 ≡ exclusive
unfolding step together
written-mode = refl

-- Both threads of the group before the last one go once round their loops, and end.
abbrev to_over : List (ℕ × Bool)
to_over = by 0 14 ++ ((0, false) ∷ by 1 13 ++ ((1, false) ∷ []))

abbrev over : Plain
over = after_all 10 to_over

over_reached : Reach plain_mutex (group 10 groups) over
unfolding step together
over_reached =
    followed (step plain_mutex) (Reach plain_mutex (group 10 groups)) (λ a s t r e. next a r e)
      to_over start refl

over-ended : (i : ℕ) → i < 2 → (over.threads i).place ≡ ended
unfolding step together
over-ended zero h = refl
over-ended (suc zero) h = refl
over-ended (suc (suc i)) h = absurd (omega arith)

no_assertion_fails_example : written.failed ≡ false
no_assertion_fails_example = no_assertion_fails plain_mutex 9 written_reached

groups_over : ((i : ℕ) → mode_in over.mutex i ≡ free) × (over.state ≡ reading)
groups_over = groups_follow plain_mutex 10 over_reached over-ended
