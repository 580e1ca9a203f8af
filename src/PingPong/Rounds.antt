-- ===== src/PingPong/Rounds.antt =====
-- perf_condition_variable.cpp: every consumer takes part in every round.
use queued_thread_pool.Prelude.{
  equal, next_suc, unequal, ℕ, zero, suc, ◌+◌, ◌<◌, ◌≡◌, ◌≢◌, refl, sym, ap, ◌∙◌, subst, false,
  ◌==◌, if_both, ltb, weigh, weigh-replace, weigh-replace_same, weigh_cong, weigh_find,
  weigh-eq_zero, arith, After, After-guarded, After-some, inl, inr, ltb→lt,
}
use queued_thread_pool.PingPong.{
  ProducerPc, Stage, Consumer, System, Action, produces, stirs_producer, consumes, stirs_consumer,
  rouse_producer, rouse_stage, rouse, notify_all, produce, put, consume, step, Reach, start, next,
}
use queued_thread_pool.PingPong.Invariant.{
  left, announcing, Placed, Near, caught_up, caught_up_small, all_caught_up, behind,
  announcing-rouse, left-rouse, Placed-rouse, Placed-announced, not_caught, caught, Good,
}

module _ (n iterations : ℕ) where
  -- The producer goes to `p`, which leaves the rounds as they are, and nobody is to be notified.
  producer_at :
      (s : System) (p : ProducerPc)
      → left p ≡ left s.producer
      → announcing p ≡ announcing s.producer
      → (Good n iterations) s
      → (Good n iterations) (record s { producer = p })
  producer_at s p l a g = record {
    semaphored = g.semaphored;
    rounds = omega (arith, g.rounds, l);
    near = g.near;
    placed = λ j h. rw (a) (g.placed j h);
  }

  -- Everybody is notified, and the producer is at `p` then.
  notified :
      (s : System) (p : ProducerPc)
      → left p ≡ left s.producer
      → (Good n iterations) s
      → (Good n iterations) (notify_all (record s { producer = p }))
  notified s p l g = record {
    semaphored =
        g.semaphored
        ∙ weigh_cong (caught_up s.counter) n s.consumers (λ j. rouse (s.consumers j)) (λ j. refl);
    rounds = omega (arith, g.rounds, l, left-rouse p);
    near = g.near;
    placed = λ j h.
        Placed-rouse iterations s.counter s.counter (announcing s.producer)
          (announcing (rouse_producer p)) (s.consumers j).counter (s.consumers j).stage
          (g.placed j h);
  }

  produce-Good :
      (s : System) (p : ProducerPc)
      → s.producer ≡ p
      → (Good n iterations) s
      → After (Good n iterations) (produce n s p)
  unfolding produce
  produce-Good s (ProducerPc.counting zero) e g =
      producer_at s ProducerPc.finished (ap left (sym e)) (ap announcing (sym e)) g
  produce-Good s (ProducerPc.counting (suc i)) e g =
      producer_at s (ProducerPc.locking i) (next_suc i ∙ ap left (sym e)) (ap announcing (sym e)) g
  produce-Good s (ProducerPc.locking i) e g =
      if_both (Good n iterations) (n == s.semaphore) _ _
        (λ h.
          let met : (j : ℕ) → j < n → (s.consumers j).counter ≡ s.counter =
            all_caught_up n s.counter s.consumers (ground (arith, h, g.semaphored)) in
          record {
            semaphored = sym (
                weigh-eq_zero (caught_up (s.counter + 1)) n s.consumers
                  (λ j k. behind s.counter (s.consumers j).counter (met j k)));
            rounds = omega (arith, g.rounds, ap left e);
            near = λ j k. inr (omega (arith, met j k));
            placed = λ j k.
                Placed-announced iterations s.counter (s.counter + 1) (announcing s.producer)
                  (s.consumers j).counter (s.consumers j).stage (g.placed j k);
          })
        (λ h. producer_at s (ProducerPc.waiting i) (ap left (sym e)) (ap announcing (sym e)) g)
  produce-Good s (ProducerPc.waiting i) e g = tt
  produce-Good s (ProducerPc.notifying i) e g =
      notified s (ProducerPc.counting i) (ap left (sym e)) g
  produce-Good s ProducerPc.finished e g = tt

  -- Consumer `j` changes its stage, and nothing else does.
  staged :
      (s : System) (j : ℕ) (st : Stage)
      → Placed iterations s.counter (announcing s.producer) (s.consumers j).counter st
      → (Good n iterations) s
      → (Good n iterations) (put s j (record { counter = (s.consumers j).counter; stage = st }))
  staged s j st h g = record {
    semaphored =
        g.semaphored
        ∙ sym (
            weigh-replace_same (caught_up s.counter) n s.consumers j
              (record { counter = (s.consumers j).counter; stage = st }) refl);
    rounds = g.rounds;
    near = λ i k.
        if_both (λ (c : Consumer). Near s.counter c.counter) (j == i) _ (s.consumers i)
          (λ e.
            subst (λ l. Near s.counter (s.consumers l).counter) (sym (equal j i e)) (g.near i k))
          (λ e. g.near i k);
    placed = λ i k.
        if_both
          (λ (c : Consumer). Placed iterations s.counter (announcing s.producer) c.counter c.stage)
          (j == i) _ (s.consumers i) (λ e. h) (λ e. g.placed i k);
  }

  -- It takes part in the round.
  joined :
      (s : System) (j : ℕ)
      → j < n
      → ((s.consumers j).counter == s.counter) ≡ false
      → (Good n iterations) s
      → (Good n iterations)
          (record (put s j (record { counter = s.counter; stage = Stage.notifying })) {
            semaphore = s.semaphore + 1;
          })
  joined s j h e g = record {
    semaphored = omega (
      arith,
      g.semaphored,
      weigh-replace (caught_up s.counter) n s.consumers j
          (record { counter = s.counter; stage = Stage.notifying }) h,
      not_caught (s.consumers j) s.counter e,
      caught s.counter,
    );
    rounds = g.rounds;
    near = λ i k.
        if_both (λ (c : Consumer). Near s.counter c.counter) (j == i) _ (s.consumers i)
          (λ e'. inl refl) (λ e'. g.near i k);
    placed = λ i k.
        if_both
          (λ (c : Consumer). Placed iterations s.counter (announcing s.producer) c.counter c.stage)
          (j == i) _ (s.consumers i) (λ e'. tt) (λ e'. g.placed i k);
  }

  consume-Good :
      (s : System) (j : ℕ) (st : Stage)
      → (s.consumers j).stage ≡ st
      → j < n
      → (Good n iterations) s
      → After (Good n iterations) (consume iterations s j (s.consumers j).counter st)
  unfolding consume
  consume-Good s j Stage.testing e h g =
      if_both
        (λ st.
          (Good n iterations) (put s j (record { counter = (s.consumers j).counter; stage = st })))
        ((s.consumers j).counter == iterations) Stage.finished Stage.locking
        (λ k. staged s j Stage.finished (equal _ iterations k) g)
        (λ k. staged s j Stage.locking (unequal _ iterations k) g)
  consume-Good s j Stage.locking e h g =
      let p : (s.consumers j).counter ≢ iterations =
        subst (Placed iterations s.counter (announcing s.producer) (s.consumers j).counter) e
          (g.placed j h) in
      if_both (Good n iterations) ((s.consumers j).counter == s.counter) _ _
        (λ k. staged s j Stage.waiting (p, inl (equal _ s.counter k)) g) (λ k. joined s j h k g)
  consume-Good s j Stage.waiting e h g = tt
  consume-Good s j Stage.notifying e h g =
      notified (put s j (record { counter = (s.consumers j).counter; stage = Stage.testing }))
        s.producer refl (staged s j Stage.testing tt g)
  consume-Good s j Stage.finished e h g = tt

  step-Good :
      (a : Action) (s : System)
      → (Good n iterations) s
      → After (Good n iterations) (step n iterations a s)
  unfolding step
  step-Good produces s g = produce-Good s s.producer refl g
  step-Good stirs_producer s g =
      producer_at s (rouse_producer s.producer) (left-rouse s.producer)
        (announcing-rouse s.producer) g
  step-Good (consumes j) s g =
      After-guarded (Good n iterations) (ltb j n) _
        (λ h. consume-Good s j (s.consumers j).stage refl (ltb→lt j n h) g)
  step-Good (stirs_consumer j) s g = After-guarded (Good n iterations) (ltb j n) _ (λ h.
      staged s j (rouse_stage (s.consumers j).stage)
        (Placed-rouse iterations s.counter s.counter (announcing s.producer) (announcing s.producer)
          (s.consumers j).counter (s.consumers j).stage (g.placed j (ltb→lt j n h)))
        g)

-- At first nobody is behind.
all_at_zero :
    (n : ℕ) → weigh (caught_up 0) n (λ j. record { counter = 0; stage = Stage.testing }) ≡ n
all_at_zero n =
    elim (weigh_find (caught_up 0) (caught_up_small 0) n
      (λ j. record { counter = 0; stage = Stage.testing })) [
        | inl e ↦ e
        | inr (i, h, z) ↦ absurd (ground (arith, z))
      ]

pub Reach-Good : {n iterations : ℕ} {s : System} → Reach n iterations s → Good n iterations s
Reach-Good {n} {iterations} start = record {
  semaphored = sym (all_at_zero n);
  rounds = omega arith;
  near = λ j h. inl refl;
  placed = λ j h. tt;
}
Reach-Good {n} {iterations} (next a r e) =
    After-some (Good n iterations) e (step-Good n iterations a _ (Reach-Good r))

-- In every state that the threads reach, for any numbers of consumers and of iterations: `semaphore`
-- is the number of consumers that have taken part in the current round, and every consumer is in it or
-- one round behind.
pub rounds_in_step :
    {n iterations : ℕ} {s : System}
    → Reach n iterations s
    → (s.semaphore ≡ weigh (caught_up s.counter) n s.consumers)
      × ((j : ℕ) → j < n → Near s.counter (s.consumers j).counter)
rounds_in_step r = ((Reach-Good r).semaphored, (Reach-Good r).near)
