-- ===== src/SharedMutex/Assertions.antt =====
-- shared_mutex.cpp: no assertion of a checked loop fails.
use queued_thread_pool.Prelude.{
  ℕ, zero, suc, ◌≡◌, ◌≢◌, refl, sym, subst, ◌∙◌, ap, Bool, true, false, Option, none, some, List,
  [], ◌∷◌, replace, if◌then◌else◌, ◌&&◌, ◌==◌, not, inl, inr, Bool-cases, and-true, arith, After,
  After-some,
}
use queued_thread_pool.SharedMutex.Modes.{
  Mode, free, shared, upgrade, exclusive, together, after, UpgradeMutex,
}
use queued_thread_pool.SharedMutex.Loops.{
  Body, again, call, try, assert, assign, increment, Phase, reading, writing, same_phase, same_mode,
  checked,
}
use queued_thread_pool.SharedMutex.System.{
  Place, testing, inside, ended, Thread, spawn, System, go_on, owned, run, step, init, Reach, start,
  next,
}
use queued_thread_pool.SharedMutex.Invariant.{
  seen, At, Sound, alone, not_both, same_mode→eq, same_phase→eq, apart-replace, replaced,
  replace-other, Good,
}

reading≢writing : reading ≡ writing → ⊥
reading≢writing e = cc

-- A thread that does not own the mutex relies on nothing.
At-free : (p r : Phase) (l : Place) → At free p l → At free r l
At-free p r testing h = h
At-free p r (inside k) h = h
At-free p r ended h = h

not_free : (m : Mode) → not (same_mode m free) ≡ true → m ≡ free → ⊥
not_free m h e = ground (arith, rw (e) at h)

same_phase_refl : (p : Phase) → same_phase p p ≡ true
same_phase_refl reading = refl
same_phase_refl writing = refl

free-together : (m : Mode) → together free m ≡ true
unfolding together
free-together m = refl

-- All loops of a group are checked, from a thread that does not own the mutex.
abbrev pub checks : List Body → Bool
checks [] = true
checks (b ∷ l) = checked free reading b && checks l

spawned : (l : List Body) (i : ℕ) → checks l ≡ true → Sound free reading (spawn l i)
unfolding checked
spawned [] i h = (refl, refl)
spawned (b ∷ l) zero h = ((and-true _ _ h).0, refl)
spawned (b ∷ l) (suc i) h = spawned l i (and-true _ _ h).1

free≢exclusive : free ≡ exclusive → ⊥
free≢exclusive e = cc

module _ (u : UpgradeMutex) where
  open u use {Mutex, unowned, mode, change, mode-unowned, mode-change, together-change}

  -- A thread that may rely on `reading` is not the one that has written.
  elsewhere :
      (s : System u) (i : ℕ)
      → Good u s
      → seen (mode s.mutex i) s.state ≡ reading
      → s.state ≡ writing
      → (k : ℕ) × (mode s.mutex k ≡ exclusive) × (k ≢ i)
  elsewhere s i g h e =
      let (k, x) = g.writer e in
      (
        k,
        x,
        λ same.
            reading≢writing (
              sym h
              ∙ ap (λ m. seen m s.state) (subst (λ j. mode s.mutex j ≡ exclusive) same x)
              ∙ e),
      )

  -- Thread `i` does something that is not about the mutex or `state`.
  stays :
      (s : System u) (i : ℕ) (t : Thread) (f : Bool)
      → Good u s
      → Sound (mode s.mutex i) s.state t
      → f ≡ false
      → Good u (record s { threads = replace s.threads i t; failed = f })
  stays s i t f g h e = record {
    apart = g.apart;
    writer = g.writer;
    sound = replaced (λ j x. Sound (mode s.mutex j) s.state x) s.threads i t h (λ j n. g.sound j);
    passed = e;
  }

  -- It changes its ownership.
  seen-new :
      (s : System u) (i : ℕ) (new : Mode)
      → Good u s
      → seen (mode s.mutex i) s.state ≡ reading
      → ((j : ℕ) → j ≢ i → together new (mode s.mutex j) ≡ true)
      → (p : Phase) → p ≡ s.state
      → seen new p ≡ reading
  seen-new s i free g h t p e = refl
  seen-new s i shared g h t p e = refl
  seen-new s i upgrade g h t p e = refl
  seen-new s i exclusive g h t reading e = refl
  seen-new s i exclusive g h t writing e =
      let (k, x, n) = elsewhere s i g h (sym e) in absurd (not_both (rw (x) at (t k n)))

  moved :
      (s : System u) (i : ℕ) (new : Mode) (m : Mutex) (k : Body)
      → change i new s.mutex ≡ some m
      → Good u s
      → seen (mode s.mutex i) s.state ≡ reading
      → checked new reading k ≡ true
      → Good u (record (go_on u s i (inside k)) { mutex = m })
  moved s i new m k c g h b =
      let t : (j : ℕ) → j ≢ i → together new (mode s.mutex j) ≡ true =
        together-change i new s.mutex m c in
      let e : (j : ℕ) → mode m j ≡ replace (mode s.mutex) i new j = mode-change i new s.mutex m c in
      record {
        apart = λ j l n. rw (e j, e l) (apart-replace (mode s.mutex) i new g.apart t j l n);
        writer = λ w.
            let (l, x, n) = elsewhere s i g h w in
            (l, e l ∙ replace-other (mode s.mutex) i new l n ∙ x);
        sound = λ j. elim (Bool-cases (i == j)) [
          | inl o ↦
              rw (e j, o)
                (
                  (g.sound i).0,
                  subst (λ p. checked new p k ≡ true) (sym (seen-new s i new g h t s.state refl)) b,
                )
          | inr o ↦ rw (e j, o) (g.sound j)
        ];
        passed = g.passed;
      }

  owned-Good :
      (s : System u) (i : ℕ) (new : Mode) (k : Body) (r : Option Mutex)
      → change i new s.mutex ≡ r
      → Good u s
      → seen (mode s.mutex i) s.state ≡ reading
      → checked new reading k ≡ true
      → After (Good u) (owned u s i k r)
  owned-Good s i new k none c g h b = tt
  owned-Good s i new k (some m) c g h b = moved s i new m k c g h b

  -- While an owner does not write, nobody does.
  nobody_writes :
      (s : System u) (i : ℕ)
      → Good u s
      → (mode s.mutex i ≡ free → ⊥)
      → seen (mode s.mutex i) s.state ≡ reading
      → s.state ≡ writing
      → ⊥
  nobody_writes s i g o h e =
      let (k, x, n) = elsewhere s i g h e in
      o (alone (mode s.mutex i) (subst (λ m. together m (mode s.mutex i) ≡ true) x (g.apart k i n)))

  -- An assertion of a thread that owns the mutex
  asserted :
      (s : System u) (i : ℕ) (p : Phase)
      → Good u s
      → (mode s.mutex i ≡ free → ⊥)
      → (m : Mode) → mode s.mutex i ≡ m
      → (r : Phase) → s.state ≡ r
      → seen m r ≡ p
      → r ≡ p
  asserted s i p g o exclusive e r f h = h
  asserted s i p g o free e r f h = absurd (o e)
  asserted s i p g o shared e reading f h = h
  asserted s i p g o upgrade e reading f h = h
  asserted s i p g o shared e writing f h = absurd (nobody_writes s i g o (rw (e) refl) f)
  asserted s i p g o upgrade e writing f h = absurd (nobody_writes s i g o (rw (e) refl) f)

  -- `state` is written by an exclusive owner.
  wrote :
      (s : System u) (i : ℕ) (p : Phase) (k : Body)
      → Good u s
      → mode s.mutex i ≡ exclusive
      → checked exclusive p k ≡ true
      → Good u (record (go_on u s i (inside k)) { state = p })
  wrote s i p k g x b = record {
    apart = g.apart;
    writer = λ w. (i, x);
    sound =
        replaced (λ j y. Sound (mode s.mutex j) p y) s.threads i
          (record (s.threads i) { place = inside k }) ((g.sound i).0, rw (x) b)
          (λ j n.
            let f : mode s.mutex j ≡ free =
              alone (mode s.mutex j) (
                subst (λ m. together m (mode s.mutex j) ≡ true) x (g.apart i j (λ e. n (sym e)))) in
            (
              (g.sound j).0,
              subst (λ m. At m s.state (s.threads j).place → At m p (s.threads j).place) (sym f)
                  (At-free s.state p (s.threads j).place) (g.sound j).1,
            ));
    passed = g.passed;
  }

  -- One step of thread `i`
  run-Good :
      (s : System u) (i : ℕ) (answer : Bool) (l : Place)
      → (s.threads i).place ≡ l
      → Good u s
      → At (mode s.mutex i) s.state l
      → After (Good u) (run u s i answer l)
  unfolding run checked
  run-Good s i true testing e g h =
      stays s i _ s.failed g ((g.sound i).0, rw (h) (g.sound i).0) g.passed
  run-Good s i false testing e g h = stays s i _ s.failed g ((g.sound i).0, h) g.passed
  run-Good s i answer (inside again) e g h =
      stays s i _ s.failed g ((g.sound i).0, same_mode→eq _ free (and-true _ _ h).0) g.passed
  run-Good s i answer (inside (call m k)) e g h =
      let (a, d) = and-true _ _ h in
      let (b, c) = and-true _ _ a in
      owned-Good s i (after m) k (change i (after m) s.mutex) refl g (same_phase→eq _ reading c) d
  run-Good s i true (inside (try m k l)) e g h =
      let (a, d) = and-true _ _ h in
      let (b, c) = and-true _ _ a in
      owned-Good s i (after m) k (change i (after m) s.mutex) refl g
        (same_phase→eq _ reading (and-true _ _ b).1) c
  run-Good s i false (inside (try m k l)) e g h =
      let (a, d) = and-true _ _ h in
      let (b, c) = and-true _ _ a in
      let calm : seen (mode s.mutex i) s.state ≡ reading =
        same_phase→eq _ reading (and-true _ _ b).1 in
      stays s i _ s.failed g
        ((g.sound i).0, subst (λ p. checked (mode s.mutex i) p l ≡ true) (sym calm) d) g.passed
  run-Good s i answer (inside (assert p k)) e g h =
      let (a, d) = and-true _ _ h in
      let (b, c) = and-true _ _ a in
      let holds : s.state ≡ p =
        asserted s i p g (not_free (mode s.mutex i) b) (mode s.mutex i) refl s.state refl
          (same_phase→eq _ p c) in
      stays s i _ (if same_phase s.state p then s.failed else true) g ((g.sound i).0, d)
        (rw (holds, same_phase_refl p) g.passed)
  run-Good s i answer (inside (assign p k)) e g h =
      let (a, d) = and-true _ _ h in
      let x : mode s.mutex i ≡ exclusive = same_mode→eq _ exclusive a in
      wrote s i p k g x (subst (λ m. checked m p k ≡ true) x d)
  run-Good s i answer (inside (increment k)) e g h =
      stays s i _ s.failed g ((g.sound i).0, h) g.passed
  run-Good s i answer ended e g h = tt

  step-Good : (a : ℕ × Bool) (s : System u) → Good u s → After (Good u) (step u a s)
  unfolding step
  step-Good (i, answer) s g = run-Good s i answer (s.threads i).place refl g (g.sound i).1

  init-Good : (l : List Body) → (checks l ≡ true) → Good u (init u l)
  init-Good l h = record {
    apart = λ i j n. rw (mode-unowned i) (free-together _);
    writer = λ e. absurd (reading≢writing e);
    sound = λ i. rw (mode-unowned i) (spawned l i h);
    passed = refl;
  }

  -- The threads of a group of checked loops: in every state that they reach, no assertion has failed.
  pub assertions_hold : {l : List Body} {s : System u} → checks l ≡ true → Reach u l s → Good u s
  assertions_hold h start = init-Good _ h
  assertions_hold h (next a r e) = After-some (Good u) e (step-Good a _ (assertions_hold h r))

  pub unwritten :
      (s : System u)
      → Good u s
      → ((i : ℕ) → mode s.mutex i ≡ free)
      → (p : Phase) → s.state ≡ p
      → s.state ≡ reading
  unwritten s g f reading e = e
  unwritten s g f writing e = let (i, x) = g.writer e in absurd (free≢exclusive (sym (f i) ∙ x))
