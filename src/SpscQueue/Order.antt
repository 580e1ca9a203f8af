-- ===== src/SpscQueue/Order.antt =====
-- lockfree_spsc_queue.cpp: every value is consumed once, in order, and the assertion holds.
use mathlib.Core.List.{append-nil}
use queued_thread_pool.Prelude.{
  false≢true, ℕ, ◌≡◌, refl, sym, ap, ◌∙◌, subst, Bool, true, List, [], ◌++◌, length, arith,
  After-some,
}
use queued_thread_pool.SpscQueue.{
  Queue, ProducerPc, counting, pushing, produced_all, ConsumerPc, testing, popping, draining,
  consumed_all, asserting, System, Reach, start, next,
}
use queued_thread_pool.SpscQueue.Invariant.{
  up_to, length-up_to, sent, is_all, Counts, Knows, is_consumed, Joined, Good,
}
use queued_thread_pool.SpscQueue.Steps.{step-Good}

module _ (q : Queue) (n : ℕ) where
  open q use {contents, contents-no_values}

  Reach-Good : {s : System q} → Reach q n s → (Good q n) s
  unfolding up_to
  Reach-Good start = record {
    ordered = contents-no_values;
    counted = refl;
    counts = (refl, omega arith);
    told = λ h. absurd (false≢true h);
    knows = tt;
    joined = tt;
  }
  Reach-Good (next a r e) = After-some (Good q n) e ((step-Good q n) a _ (Reach-Good r))

  all-sent : (pc : ProducerPc) → is_all pc ≡ true → sent n pc ≡ n
  all-sent produced_all h = refl
  all-sent (counting i) h = absurd (false≢true h)
  all-sent (pushing i) h = absurd (false≢true h)

  all-counted : (k : ℕ) (pc : ProducerPc) → is_all pc ≡ true → Counts n k pc → k ≡ n
  all-counted k produced_all h c = c
  all-counted k (counting i) h c = absurd (false≢true h)
  all-counted k (pushing i) h c = absurd (false≢true h)

  nothing_left :
      (l : List ℕ) (d : Bool) (c : ConsumerPc) → is_consumed c ≡ true → Knows l d c → l ≡ []
  nothing_left l d consumed_all h k = k.1
  nothing_left l d testing h k = absurd (false≢true h)
  nothing_left l d popping h k = absurd (false≢true h)
  nothing_left l d draining h k = absurd (false≢true h)

  -- Over any queue that keeps the documented laws, for any number of iterations: in every state that the threads
  -- reach, what was consumed, followed by what stands in the queue, is the numbers from 1 on in their
  -- order, as many as were pushed.
  pub consumed_in_order :
      {s : System q}
      → Reach q n s
      → s.consumed ++ contents s.spsc_queue ≡ up_to (sent n s.producer_pc)
  consumed_in_order r = (Reach-Good r).ordered

  -- The same: when main is at its assertion, the two counts are equal, both are the number of
  -- iterations, and the numbers from 1 to it were consumed in their order.
  pub assertion_holds :
      {s : System q}
      → Reach q n s
      → s.main_pc ≡ asserting
      → (s.producer_count ≡ s.consumer_count) × (s.producer_count ≡ n) × (s.consumed ≡ up_to n)
  assertion_holds {s} r e =
      let g : (Good q n) s = Reach-Good r in
      let j : (is_all s.producer_pc ≡ true) × (is_consumed s.consumer_pc ≡ true) =
        subst (Joined s.producer_pc s.consumer_pc) e g.joined in
      let produced : s.producer_count ≡ n =
        all-counted s.producer_count s.producer_pc j.0 g.counts in
      let empty : contents s.spsc_queue ≡ [] = nothing_left _ s.done s.consumer_pc j.1 g.knows in
      let all : s.consumed ≡ up_to n =
        sym (append-nil s.consumed)
        ∙ (ap (λ l. s.consumed ++ l) (sym empty)
            ∙ (g.ordered ∙ ap up_to (all-sent s.producer_pc j.0))) in
      (produced ∙ sym (g.counted ∙ (ap length all ∙ length-up_to n)), produced, all)
