-- ===== src/PingPong/Progress.antt =====
-- perf_condition_variable.cpp: no notification is lost, and some thread can always move.
use queued_thread_pool.Prelude.{
  equal, false≢true, unequal, ℕ, zero, suc, ◌+◌, ◌<◌, ◌≡◌, ◌≢◌, refl, sym, ap, ◌∙◌, subst, Bool,
  true, false, ◌==◌, if_both, replace, ltb, weigh_find, weigh_find, arith, After, After-guarded,
  After-some, inl, inr, ◌⊎◌, Bool-cases, ltb→lt,
}
use queued_thread_pool.PingPong.{
  ProducerPc, Stage, Consumer, System, Action, produces, stirs_producer, consumes, stirs_consumer,
  rouse_producer, rouse_stage, rouse, produce, consume, step, Reach, start, next,
}
use queued_thread_pool.Prelude.{is_some, ◌&&◌, lt→ltb}
use queued_thread_pool.PingPong.Invariant.{
  left, announcing, Placed, Near, caught_up, caught_up_small, Good,
}
use queued_thread_pool.PingPong.Rounds.{Reach-Good}

-- While the producer waits, a consumer is missing from the round, or about to notify.
abbrev Watches : ℕ → ℕ → (ℕ → Consumer) → ProducerPc → Type 0
Watches n semaphore f (ProducerPc.waiting i) =
    (n ≢ semaphore) ⊎ ((j : ℕ) × (j < n) × ((f j).stage ≡ Stage.notifying))
Watches n semaphore f _ = Unit

abbrev is_notifying : Stage → Bool
is_notifying Stage.notifying = true
is_notifying _ = false

Watches-rouse :
    (n semaphore : ℕ) (f : ℕ → Consumer) (p : ProducerPc) → Watches n semaphore f (rouse_producer p)
Watches-rouse n semaphore f (ProducerPc.waiting i) = tt
Watches-rouse n semaphore f (ProducerPc.counting i) = tt
Watches-rouse n semaphore f (ProducerPc.locking i) = tt
Watches-rouse n semaphore f (ProducerPc.notifying i) = tt
Watches-rouse n semaphore f ProducerPc.finished = tt

-- Consumer `j` changes, and was not about to notify, or still is.
Watches-put :
    (n semaphore : ℕ) (f : ℕ → Consumer) (j : ℕ) (c : Consumer) (p : ProducerPc)
    → ((f j).stage ≡ Stage.notifying → c.stage ≡ Stage.notifying)
    → Watches n semaphore f p
    → Watches n semaphore (replace f j c) p
Watches-put n semaphore f j c (ProducerPc.waiting i) h (inl e) = inl e
Watches-put n semaphore f j c (ProducerPc.waiting i) h (inr (k, l, e)) = inr (
  k,
  l,
  if_both (λ (d : Consumer). d.stage ≡ Stage.notifying) (j == k) c (f k)
      (λ m. h (subst (λ x. (f x).stage ≡ Stage.notifying) (sym (equal j k m)) e)) (λ m. e),
)
Watches-put n semaphore f j c (ProducerPc.counting i) h w = tt
Watches-put n semaphore f j c (ProducerPc.locking i) h w = tt
Watches-put n semaphore f j c (ProducerPc.notifying i) h w = tt
Watches-put n semaphore f j c ProducerPc.finished h w = tt

-- Consumer `j` is about to notify.
Watches-told :
    (n semaphore : ℕ) (f : ℕ → Consumer) (j : ℕ) (c : Consumer) (p : ProducerPc)
    → j < n
    → c.stage ≡ Stage.notifying
    → Watches n semaphore (replace f j c) p
Watches-told n semaphore f j c (ProducerPc.waiting i) h e = inr (
  j,
  h,
  if_both (λ (d : Consumer). d.stage ≡ Stage.notifying) (j == j) c (f j) (λ m. e)
      (λ m. absurd (unequal j j m refl)),
)
Watches-told n semaphore f j c (ProducerPc.counting i) h e = tt
Watches-told n semaphore f j c (ProducerPc.locking i) h e = tt
Watches-told n semaphore f j c (ProducerPc.notifying i) h e = tt
Watches-told n semaphore f j c ProducerPc.finished h e = tt

not_waiting : Stage.notifying ≡ Stage.waiting → ⊥
not_waiting x = cc

not_finished : Stage.notifying ≡ Stage.finished → ⊥
not_finished x = cc

is_behind :
    (counter : ℕ) (c : Consumer)
    → caught_up counter c ≡ 0
    → Near counter c.counter
    → c.counter + 1 ≡ counter
is_behind counter c z (inl e) = absurd (ground (arith, z, e))
is_behind counter c z (inr e) = e

not_notifying : (st : Stage) → is_notifying st ≡ false → st ≡ Stage.notifying → ⊥
not_notifying st h e = false≢true (sym h ∙ ap is_notifying e)

module _ (n iterations : ℕ) where
  abbrev Watched : System → Type 0
  Watched s = Watches n s.semaphore s.consumers s.producer

  produce-Watched : (s : System) (p : ProducerPc) → Watched s → After Watched (produce n s p)
  unfolding produce
  produce-Watched s (ProducerPc.counting zero) w = tt
  produce-Watched s (ProducerPc.counting (suc i)) w = tt
  produce-Watched s (ProducerPc.locking i) w =
      if_both Watched (n == s.semaphore) _ _ (λ h. tt) (λ h. inl (unequal n s.semaphore h))
  produce-Watched s (ProducerPc.waiting i) w = tt
  produce-Watched s (ProducerPc.notifying i) w = tt
  produce-Watched s ProducerPc.finished w = tt

  consume-Watched :
      (s : System) (j : ℕ) (st : Stage)
      → (s.consumers j).stage ≡ st
      → j < n
      → Watched s
      → After Watched (consume iterations s j (s.consumers j).counter st)
  unfolding consume
  consume-Watched s j Stage.testing e h w =
      Watches-put n s.semaphore s.consumers j _ s.producer
        (λ k. absurd (not_notifying Stage.testing refl (sym e ∙ k))) w
  consume-Watched s j Stage.locking e h w =
      if_both Watched ((s.consumers j).counter == s.counter) _ _
        (λ k.
          Watches-put n s.semaphore s.consumers j _ s.producer
            (λ l. absurd (not_notifying Stage.locking refl (sym e ∙ l))) w)
        (λ k. Watches-told n (s.semaphore + 1) s.consumers j _ s.producer h refl)
  consume-Watched s j Stage.waiting e h w = tt
  consume-Watched s j Stage.notifying e h w =
      Watches-rouse n s.semaphore
        (λ k. rouse (
          replace s.consumers j
            (record { counter = (s.consumers j).counter; stage = Stage.testing }) k))
        s.producer
  consume-Watched s j Stage.finished e h w = tt

  step-Watched : (a : Action) (s : System) → Watched s → After Watched (step n iterations a s)
  unfolding step
  step-Watched produces s w = produce-Watched s s.producer w
  step-Watched stirs_producer s w = Watches-rouse n s.semaphore s.consumers s.producer
  step-Watched (consumes j) s w =
      After-guarded Watched (ltb j n) _
        (λ h. consume-Watched s j (s.consumers j).stage refl (ltb→lt j n h) w)
  step-Watched (stirs_consumer j) s w = After-guarded Watched (ltb j n) _ (λ h.
      Watches-put n s.semaphore s.consumers j (rouse (s.consumers j)) s.producer
        (λ e. ap rouse_stage e) w)

Reach-Watched : {n iterations : ℕ} {s : System} → Reach n iterations s → Watched n iterations s
Reach-Watched start = tt
Reach-Watched {n} {iterations} (next a r e) =
    After-some (Watched n iterations) e (step-Watched n iterations a _ (Reach-Watched r))

abbrev pub is_finished : Stage → Bool
is_finished Stage.finished = true
is_finished _ = false

abbrev pub all_finished : ℕ → (ℕ → Consumer) → Bool
all_finished zero f = true
all_finished (suc n) f = is_finished (f n).stage && all_finished n f

-- All threads have ended.
abbrev pub is_over : ℕ → System → ProducerPc → Bool
is_over n s ProducerPc.finished = all_finished n s.consumers
is_over n s _ = false

unfinished :
    (n : ℕ) (f : ℕ → Consumer)
    → all_finished n f ≡ false
    → (j : ℕ) × (j < n) × (is_finished (f j).stage ≡ false)
unfinished zero f h = absurd (ground (arith, h))
unfinished (suc n) f h = elim (Bool-cases (is_finished (f n).stage)) [
  | inr e ↦ (n, omega arith, e)
  | inl e ↦ let (j, k, e') = unfinished n f (rw (e) at h) in (j, omega arith, e')
]

-- Some thread can make a step of its own, without a spurious wakeup.
abbrev pub Unstuck : ℕ → ℕ → System → Type 0
Unstuck n iterations s =
    (is_some (step n iterations produces s) ≡ true)
    ⊎ ((j : ℕ) × (is_some (step n iterations (consumes j) s) ≡ true))

module _ (n iterations : ℕ) where
  -- A consumer that is not in its wait, and has not ended, can move.
  consumer_moves :
      (s : System) (j : ℕ) (st : Stage)
      → (s.consumers j).stage ≡ st
      → j < n
      → (st ≡ Stage.waiting → ⊥)
      → (st ≡ Stage.finished → ⊥)
      → Unstuck n iterations s
  unfolding step consume
  consumer_moves s j Stage.testing e h w f = inr (j, rw (lt→ltb j n h, e) refl)
  consumer_moves s j Stage.locking e h w f = inr (j, rw (lt→ltb j n h, e) refl)
  consumer_moves s j Stage.waiting e h w f = absurd (w refl)
  consumer_moves s j Stage.notifying e h w f = inr (j, rw (lt→ltb j n h, e) refl)
  consumer_moves s j Stage.finished e h w f = absurd (f refl)

  -- A consumer that is behind is neither in its wait nor at its end, unless the producer is about to
  -- notify.
  behind_moves :
      (s : System) (j : ℕ)
      → Good n iterations s
      → j < n
      → announcing s.producer ≡ false
      → (s.consumers j).counter + 1 ≡ s.counter
      → Unstuck n iterations s
  behind_moves s j g h a b =
      consumer_moves s j (s.consumers j).stage refl h
        (λ e.
          elim (subst (Placed iterations s.counter (announcing s.producer) (s.consumers j).counter)
            e (g.placed j h)).1 [
              | inl c ↦ absurd (omega (arith, b, c))
              | inr c ↦ absurd (false≢true (sym a ∙ c))
            ])
        (λ e.
          let k : (s.consumers j).counter ≡ iterations =
            subst (Placed iterations s.counter (announcing s.producer) (s.consumers j).counter) e
              (g.placed j h) in
          absurd (omega (arith, b, k, g.rounds)))

  waiting_moves :
      (s : System) (i : ℕ)
      → s.producer ≡ ProducerPc.waiting i
      → Good n iterations s
      → Watches n s.semaphore s.consumers (ProducerPc.waiting i)
      → Unstuck n iterations s
  waiting_moves s i e g (inr (j, h, k)) =
      consumer_moves s j Stage.notifying k h (λ x. not_waiting x) (λ x. not_finished x)
  waiting_moves s i e g (inl d) =
      elim (weigh_find (caught_up s.counter) (caught_up_small s.counter) n s.consumers) [
        | inl f ↦ absurd (d (sym f ∙ sym g.semaphored))
        | inr (j, h, z) ↦
            behind_moves s j g h (ap announcing e)
              (is_behind s.counter (s.consumers j) z (g.near j h))
      ]

  finished_moves :
      (s : System) (j : ℕ)
      → s.producer ≡ ProducerPc.finished
      → Good n iterations s
      → j < n
      → is_finished (s.consumers j).stage ≡ false
      → Unstuck n iterations s
  finished_moves s j e g h f =
      consumer_moves s j (s.consumers j).stage refl h
        (λ x.
          let p : Placed iterations s.counter (announcing s.producer) (s.consumers j).counter
              Stage.waiting =
            subst (Placed iterations s.counter (announcing s.producer) (s.consumers j).counter) x
              (g.placed j h) in
          elim p.1 [
            | inl c ↦ absurd (p.0 (omega (arith, c, g.rounds, ap left e)))
            | inr c ↦ absurd (false≢true (ap announcing (sym e) ∙ c))
          ])
        (λ x. false≢true (sym f ∙ ap is_finished x))

  moves_at :
      (s : System) (p : ProducerPc)
      → s.producer ≡ p
      → Good n iterations s
      → Watches n s.semaphore s.consumers p
      → is_over n s p ≡ false
      → Unstuck n iterations s
  unfolding step produce
  moves_at s (ProducerPc.counting i) e g w o = inl (rw (e) refl)
  moves_at s (ProducerPc.locking i) e g w o = inl (rw (e) refl)
  moves_at s (ProducerPc.waiting i) e g w o = waiting_moves s i e g w
  moves_at s (ProducerPc.notifying i) e g w o = inl (rw (e) refl)
  moves_at s ProducerPc.finished e g w o =
      let (j, h, f) = unfinished n s.consumers o in finished_moves s j e g h f

-- In every state that the threads reach, for any numbers of consumers and of iterations: unless all
-- threads have ended, some thread can make a step, though no wait ends spuriously.
pub never_stuck :
    {n iterations : ℕ} {s : System}
    → Reach n iterations s
    → is_over n s s.producer ≡ false
    → Unstuck n iterations s
never_stuck {n} {iterations} {s} r o =
    moves_at n iterations s s.producer refl (Reach-Good r) (Reach-Watched r) o
