-- ===== src/SpscQueue/Tests.antt =====
-- lockfree_spsc_queue.cpp: runs over a queue of capacity 2, and the theorems there.
use queued_thread_pool.Prelude.{
  ℕ, zero, suc, ◌≡◌, refl, List, [], ◌∷◌, ◌++◌, follow, or_else, followed,
}
use queued_thread_pool.SpscQueue.{
  System, Action, produces, consumes, goes_on, asserting, step, init, Reach, start, next,
}
use queued_thread_pool.SpscQueue.Plain.{plain_spsc}
use queued_thread_pool.SpscQueue.Invariant.{up_to, sent}
use queued_thread_pool.SpscQueue.Order.{consumed_in_order, assertion_holds}

abbrev times : ℕ → Action → List Action
times zero a = []
times (suc n) a = a ∷ times n a

-- The producer finds the queue full, and the consumer takes one value.
abbrev to_full : List Action
to_full = times 6 produces ++ times 2 consumes

abbrev at_three : List Action → System (plain_spsc 2)
at_three l = or_else (init (plain_spsc 2)) (follow (step (plain_spsc 2) 3) l (init (plain_spsc 2)))

abbrev full : System (plain_spsc 2)
full = at_three to_full

full_reached : Reach (plain_spsc 2) 3 full
unfolding step
full_reached =
    followed (step (plain_spsc 2) 3) (Reach (plain_spsc 2) 3) (λ a s t r e. next a r e) to_full
      start refl

full-consumed : full.consumed ≡ 1 ∷ []
unfolding step
full-consumed = refl

-- All three go on to their ends.
abbrev to_end : List Action
to_end = to_full ++ (times 2 produces ++ (goes_on ∷ goes_on ∷ times 5 consumes ++ goes_on ∷ []))

abbrev over : System (plain_spsc 2)
over = at_three to_end

over_reached : Reach (plain_spsc 2) 3 over
unfolding step
over_reached =
    followed (step (plain_spsc 2) 3) (Reach (plain_spsc 2) 3) (λ a s t r e. next a r e) to_end start
      refl

over-asserting : over.main_pc ≡ asserting
unfolding step
over-asserting = refl

consumed_in_order_example : full.consumed ++ full.spsc_queue ≡ up_to (sent 3 full.producer_pc)
consumed_in_order_example = consumed_in_order (plain_spsc 2) 3 full_reached

assertion_holds_example :
    (over.producer_count ≡ over.consumer_count)
    × (over.producer_count ≡ 3)
    × (over.consumed ≡ up_to 3)
assertion_holds_example = assertion_holds (plain_spsc 2) 3 over_reached over-asserting
