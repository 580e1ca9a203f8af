-- ===== src/SharedMutex/Groups.antt =====
-- shared_mutex.cpp: the groups of threads that the two test functions start.
use queued_thread_pool.Prelude.{
  ℕ, zero, suc, ◌≡◌, refl, sym, subst, ◌∙◌, Bool, true, false, Option, none, some, List, [], ◌∷◌,
  ◌++◌, replace, length, dec_lt, ◌≤◌, ◌<◌, ◌&&◌, and-true, arith, After, After-some,
}
use queued_thread_pool.SharedMutex.Modes.{free, after, UpgradeMutex}
use queued_thread_pool.SharedMutex.Loops.{
  Body, again, call, try, assert, assign, increment, reading, checked,
}
use queued_thread_pool.SharedMutex.S.{test_shared_mutex}
use queued_thread_pool.SharedMutex.U.{test_upgrade_mutex}
use queued_thread_pool.SharedMutex.System.{
  Place, testing, inside, ended, Thread, spawn, System, owned, run, step, Reach, start, next,
}
use queued_thread_pool.SharedMutex.Invariant.{At, replaced, Good}
use queued_thread_pool.SharedMutex.Assertions.{checks, assertions_hold, unwritten}

testing≢ended : testing ≡ ended → ⊥
testing≢ended e = cc

inside≢ended : {k : Body} → inside k ≡ ended → ⊥
inside≢ended e = cc

-- One group of threads of a test function; past its end, there are none.
abbrev pub group : ℕ → List (List Body) → List Body
group n [] = []
group zero (l ∷ g) = l
group (suc n) (l ∷ g) = group n g

abbrev all_checked : List (List Body) → Bool
all_checked [] = true
all_checked (l ∷ g) = checks l && all_checked g

checks-group : (n : ℕ) (g : List (List Body)) → all_checked g ≡ true → checks (group n g) ≡ true
checks-group n [] h = refl
checks-group zero (l ∷ g) h = (and-true _ _ h).0
checks-group (suc n) (l ∷ g) h = checks-group n g (and-true _ _ h).1

abbrev pub groups : List (List Body)
groups = test_shared_mutex ++ test_upgrade_mutex

groups-checked : all_checked groups ≡ true
unfolding checked
groups-checked = refl

spawn-beyond : (l : List Body) (i : ℕ) → length l ≤ i → (spawn l i).place ≡ ended
spawn-beyond [] i h = refl
spawn-beyond (b ∷ l) zero h = absurd (omega arith)
spawn-beyond (b ∷ l) (suc i) h = spawn-beyond l i (omega arith)

module _ (u : UpgradeMutex) (n : ℕ) where
  open u use {change}

  -- From `n` on there is no thread.
  abbrev pub Beyond : System u → Type 0
  Beyond s = (i : ℕ) → n ≤ i → (s.threads i).place ≡ ended

  replace-Beyond :
      (s : System u) (i : ℕ) (t : Thread)
      → ((s.threads i).place ≡ ended → ⊥)
      → Beyond s
      → (j : ℕ) → n ≤ j
      → (replace s.threads i t j).place ≡ ended
  replace-Beyond s i t h b =
      replaced (λ j x. n ≤ j → x.place ≡ ended) s.threads i t (λ k. absurd (h (b i k))) (λ j o. b j)

  owned-Beyond :
      (s : System u) (i : ℕ) (k : Body) (r : Option (u.Mutex))
      → ((s.threads i).place ≡ ended → ⊥)
      → Beyond s
      → After Beyond (owned u s i k r)
  owned-Beyond s i k none h b = tt
  owned-Beyond s i k (some m) h b = replace-Beyond s i _ h b

  run-Beyond :
      (s : System u) (i : ℕ) (answer : Bool) (l : Place)
      → (s.threads i).place ≡ l
      → Beyond s
      → After Beyond (run u s i answer l)
  unfolding run
  run-Beyond s i answer testing e b = replace-Beyond s i _ (λ f. testing≢ended (sym e ∙ f)) b
  run-Beyond s i answer (inside again) e b = replace-Beyond s i _ (λ f. inside≢ended (sym e ∙ f)) b
  run-Beyond s i answer (inside (call m k)) e b =
      owned-Beyond s i k (change i (after m) s.mutex) (λ f. inside≢ended (sym e ∙ f)) b
  run-Beyond s i true (inside (try m k l)) e b =
      owned-Beyond s i k (change i (after m) s.mutex) (λ f. inside≢ended (sym e ∙ f)) b
  run-Beyond s i false (inside (try m k l)) e b =
      replace-Beyond s i _ (λ f. inside≢ended (sym e ∙ f)) b
  run-Beyond s i answer (inside (assert p k)) e b =
      replace-Beyond s i _ (λ f. inside≢ended (sym e ∙ f)) b
  run-Beyond s i answer (inside (assign p k)) e b =
      replace-Beyond s i _ (λ f. inside≢ended (sym e ∙ f)) b
  run-Beyond s i answer (inside (increment k)) e b =
      replace-Beyond s i _ (λ f. inside≢ended (sym e ∙ f)) b
  run-Beyond s i answer ended e b = tt

  step-Beyond : (a : ℕ × Bool) (s : System u) → Beyond s → After Beyond (step u a s)
  unfolding step
  step-Beyond (i, answer) s b = run-Beyond s i answer (s.threads i).place refl b

Reach-Beyond :
    (u : UpgradeMutex) {l : List Body} {s : System u} → Reach u l s → Beyond u (length l) s
Reach-Beyond u {l} start = spawn-beyond l
Reach-Beyond u {l} (next a r e) =
    After-some (Beyond u (length l)) e (step-Beyond u (length l) a _ (Reach-Beyond u r))

module _ (u : UpgradeMutex) where
  open u use {mode}

  -- In every state that the threads of a group reach which test_shared_mutex or test_upgrade_mutex
  -- starts: no assertion has failed.
  pub no_assertion_fails : (n : ℕ) {s : System u} → Reach u (group n groups) s → s.failed ≡ false
  no_assertion_fails n r = (assertions_hold u (checks-group n groups groups-checked) r).passed

  -- When all threads of such a group have ended, nobody owns the mutex, and `state` is `reading`: the
  -- next group starts as the first one does.
  pub groups_follow :
      (n : ℕ) {s : System u}
      → Reach u (group n groups) s
      → ((i : ℕ) → i < length (group n groups) → (s.threads i).place ≡ ended)
      → ((i : ℕ) → mode s.mutex i ≡ free) × (s.state ≡ reading)
  groups_follow n {s} r e =
      let g : Good u s = assertions_hold u (checks-group n groups groups-checked) r in
      let all : (i : ℕ) → Dec (i < length (group n groups)) → (s.threads i).place ≡ ended =
        (λ i d. elim d [ yes h ↦ e i h | no h ↦ Reach-Beyond u r i (omega arith) ]) in
      let f : (i : ℕ) → mode s.mutex i ≡ free = λ i.
        subst (At (mode s.mutex i) s.state) (all i (dec_lt i (length (group n groups))))
          (g.sound i).1 in
      (f, unwritten u s g f s.state refl)
