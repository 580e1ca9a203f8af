-- ===== src/SpscQueue/Steps.antt =====
-- lockfree_spsc_queue.cpp: the steps of the producer, the consumer and main keep the invariant.
use mathlib.Core.List.{append_assoc}
use queued_thread_pool.Prelude.{
  equal, false≢true, ℕ, ◌+◌, ◌≡◌, refl, sym, ap, ◌∙◌, subst, Bool, true, false, Option, none, some,
  List, [], ◌∷◌, ◌++◌, ◌==◌, length-append, if_both, arith, After, inl, inr, Bool-cases,
}
use queued_thread_pool.SpscQueue.{
  Queue, ProducerPc, counting, pushing, produced_all, ConsumerPc, testing, popping, draining,
  consumed_all, MainPc, joining_producer, setting_done, joining_consumer, asserting, Action,
  produces, consumes, goes_on, System, pushed, producer, popped, consumer, join_producer,
  join_consumer, main, step,
}
use queued_thread_pool.SpscQueue.Invariant.{
  up_to, up_to_next, is_all, Knows, is_consumed, Joined, Joined-same, Joined-all, Joined-consumer,
  GoodAt, Good,
}

module _ (q : Queue) (n : ℕ) where
  open q use {
    Spsc, contents, no_values, push, pop, contents-no_values, contents-push, contents-pop, pop-none,
  }

  -- While the producer has not ended, nobody has been told to end.
  Knows-early :
      (l m : List ℕ) (d : Bool) (c : ConsumerPc) → (d ≡ true → ⊥) → Knows l d c → Knows m d c
  Knows-early l m d testing h k = tt
  Knows-early l m d popping h k = tt
  Knows-early l m d draining h k = k
  Knows-early l m d consumed_all h k = absurd (h k.0)

  Knows-told : (l : List ℕ) (d : Bool) (c : ConsumerPc) → Knows l d c → Knows l true c
  Knows-told l d testing k = tt
  Knows-told l d popping k = tt
  Knows-told l d draining k = refl
  Knows-told l d consumed_all k = (refl, k.1)

  pushed-Good :
      (s : System q) (i : ℕ) (o : Option Spsc)
      → push s.producer_count s.spsc_queue ≡ o
      → (GoodAt q n) s (pushing i) s.consumer_pc s.main_pc
      → (Good q n) (pushed q i s o)
  pushed-Good s i none e g = record {
    ordered = g.ordered;
    counted = g.counted;
    counts = g.counts;
    told = g.told;
    knows = g.knows;
    joined = g.joined;
  }
  pushed-Good s i (some r) e g =
      let grown : contents r ≡ contents s.spsc_queue ++ (i + 1) ∷ [] =
        contents-push s.producer_count s.spsc_queue r e
        ∙ ap (λ k. contents s.spsc_queue ++ k ∷ []) g.counts.0 in
      record {
        ordered =
            ap (λ l. s.consumed ++ l) grown
            ∙ (sym (append_assoc s.consumed (contents s.spsc_queue) ((i + 1) ∷ []))
                ∙ (ap (λ l. l ++ (i + 1) ∷ []) g.ordered ∙ sym (up_to_next i)));
        counted = g.counted;
        counts = (g.counts.0, omega (arith, g.counts.1));
        told = g.told;
        knows = Knows-early _ _ s.done s.consumer_pc (λ h. false≢true (g.told h)) g.knows;
        joined = Joined-same (pushing i) (counting (i + 1)) s.consumer_pc s.main_pc refl g.joined;
      }

  producer-Good :
      (s : System q) (pc : ProducerPc)
      → (GoodAt q n) s pc s.consumer_pc s.main_pc
      → After (Good q n) (producer q n s pc)
  unfolding producer
  producer-Good s (counting i) g =
      if_both (Good q n) (i == n) _ _
        (λ e. record {
          ordered = g.ordered ∙ ap up_to (equal i n e);
          counted = g.counted;
          counts = g.counts.0 ∙ equal i n e;
          told = λ h. refl;
          knows = g.knows;
          joined = Joined-all (counting i) s.consumer_pc s.main_pc g.joined;
        })
        (λ e. record {
          ordered = g.ordered;
          counted = g.counted;
          counts = (omega (arith, g.counts.0), ground (arith, e, g.counts.1));
          told = g.told;
          knows = g.knows;
          joined = Joined-same (counting i) (pushing i) s.consumer_pc s.main_pc refl g.joined;
        })
  producer-Good s (pushing i) g = pushed-Good s i (push s.producer_count s.spsc_queue) refl g
  producer-Good s produced_all g = tt

  -- `pop` has answered; the consumer stays at `pc` or goes to `pc'`.
  popped-Good :
      (s : System q) (o : Option (ℕ × Spsc)) (pc' : ConsumerPc)
      → pop s.spsc_queue ≡ o
      → ((l : List ℕ) → Knows l s.done s.consumer_pc)
      → (contents s.spsc_queue ≡ [] → Knows (contents s.spsc_queue) s.done pc')
      → is_consumed s.consumer_pc ≡ false
      → (Good q n) s
      → (Good q n) (popped q pc' s o)
  popped-Good s none pc' e k k' c g = record {
    ordered = g.ordered;
    counted = g.counted;
    counts = g.counts;
    told = g.told;
    knows = k' (pop-none s.spsc_queue e);
    joined = Joined-consumer s.producer_pc s.consumer_pc pc' s.main_pc c g.joined;
  }
  popped-Good s (some (v, r)) pc' e k k' c g = record {
    ordered =
        append_assoc s.consumed (v ∷ []) (contents r)
        ∙ ap (λ l. s.consumed ++ l) (sym (contents-pop v s.spsc_queue r e))
        ∙ g.ordered;
    counted = omega (arith, g.counted, length-append s.consumed (v ∷ []));
    counts = g.counts;
    told = g.told;
    knows = k (contents r);
    joined = g.joined;
  }

  consumer-Good :
      (s : System q) (pc : ConsumerPc)
      → s.consumer_pc ≡ pc
      → (Good q n) s
      → After (Good q n) (consumer q s pc)
  unfolding consumer
  consumer-Good s testing e g = elim (Bool-cases s.done) [
    | inl h ↦ rw (h) record {
      ordered = g.ordered;
      counted = g.counted;
      counts = g.counts;
      told = λ _. g.told h;
      knows = refl;
      joined =
          Joined-consumer s.producer_pc s.consumer_pc draining s.main_pc (ap is_consumed e)
            g.joined;
    }
    | inr h ↦ rw (h) record {
      ordered = g.ordered;
      counted = g.counted;
      counts = g.counts;
      told = λ k. absurd (false≢true k);
      knows = tt;
      joined =
          Joined-consumer s.producer_pc s.consumer_pc popping s.main_pc (ap is_consumed e) g.joined;
    }
  ]
  consumer-Good s popping e g =
      popped-Good s (pop s.spsc_queue) testing refl (λ l. subst (Knows l s.done) (sym e) tt)
        (λ h. tt) (ap is_consumed e) g
  consumer-Good s draining e g =
      let d : s.done ≡ true = subst (Knows (contents s.spsc_queue) s.done) e g.knows in
      popped-Good s (pop s.spsc_queue) consumed_all refl (λ l. subst (Knows l s.done) (sym e) d)
        (λ h. (d, h)) (ap is_consumed e) g
  consumer-Good s consumed_all e g = tt

  -- `main` goes on.
  main_at :
      (s : System q) (m : MainPc)
      → Joined s.producer_pc s.consumer_pc m
      → (Good q n) s
      → (Good q n) (record s { main_pc = m })
  main_at s m j g = record {
    ordered = g.ordered;
    counted = g.counted;
    counts = g.counts;
    told = g.told;
    knows = g.knows;
    joined = j;
  }

  join_producer-Good :
      (s : System q) (pc : ProducerPc)
      → s.producer_pc ≡ pc
      → (Good q n) s
      → After (Good q n) (join_producer q s pc)
  join_producer-Good s produced_all e g = main_at s setting_done (ap is_all e) g
  join_producer-Good s _ e g = tt

  join_consumer-Good :
      (s : System q) (pc : ConsumerPc)
      → s.consumer_pc ≡ pc
      → is_all s.producer_pc ≡ true
      → (Good q n) s
      → After (Good q n) (join_consumer q s pc)
  join_consumer-Good s consumed_all e j g = main_at s asserting (j, ap is_consumed e) g
  join_consumer-Good s _ e j g = tt

  main-Good :
      (s : System q) (pc : MainPc) → s.main_pc ≡ pc → (Good q n) s → After (Good q n) (main q s pc)
  unfolding main
  main-Good s joining_producer e g = join_producer-Good s s.producer_pc refl g
  main-Good s setting_done e g =
      let j : is_all s.producer_pc ≡ true = subst (Joined s.producer_pc s.consumer_pc) e g.joined in
      record {
        ordered = g.ordered;
        counted = g.counted;
        counts = g.counts;
        told = λ h. j;
        knows = Knows-told (contents s.spsc_queue) s.done s.consumer_pc g.knows;
        joined = j;
      }
  main-Good s joining_consumer e g =
      join_consumer-Good s s.consumer_pc refl
        (subst (Joined s.producer_pc s.consumer_pc) e g.joined) g
  main-Good s asserting e g = tt

  pub step-Good : (a : Action) (s : System q) → (Good q n) s → After (Good q n) (step q n a s)
  unfolding step
  step-Good produces s g = producer-Good s s.producer_pc g
  step-Good consumes s g = consumer-Good s s.consumer_pc refl g
  step-Good goes_on s g = main-Good s s.main_pc refl g
