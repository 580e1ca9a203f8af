-- ===== src/SharedMutex/Modes/Plain.antt =====
-- A list of who owns the mutex, and how, keeps the documented laws of boost::upgrade_mutex.
use queued_thread_pool.Prelude.{
  ℕ, ◌≡◌, ◌≢◌, refl, Bool, true, false, Option, none, some, List, [], ◌∷◌, replace, ◌&&◌, ◌==◌,
  if◌then◌else◌, inl, inr, Bool-cases, and-true, arith, none≢some, if_both,
}
use queued_thread_pool.SharedMutex.Modes.{
  Mode, free, shared, upgrade, exclusive, together, UpgradeMutex,
}

abbrev pub mode_in : List (ℕ × Mode) → ℕ → Mode
mode_in [] i = free
mode_in ((k, m) ∷ l) i = if k == i then m else mode_in l i

abbrev pub without : ℕ → List (ℕ × Mode) → List (ℕ × Mode)
without i [] = []
without i ((k, m) ∷ l) = if k == i then without i l else (k, m) ∷ without i l

-- Whether thread `i` can own the mutex so while the others own it as they do.
abbrev pub clear : ℕ → Mode → List (ℕ × Mode) → Bool
clear i new [] = true
clear i new ((k, m) ∷ l) = if k == i then clear i new l else together new m && clear i new l

abbrev pub plain_change : ℕ → Mode → List (ℕ × Mode) → Option (List (ℕ × Mode))
plain_change i new l = if clear i new l then some ((i, new) ∷ without i l) else none

skipped : (i j k : ℕ) → (k == i) ≡ true → (i == j) ≡ false → (k == j) ≡ false
skipped i j k e h = ground (arith, e, h)

mode-without :
    (i : ℕ) (l : List (ℕ × Mode)) (j : ℕ) → (i == j) ≡ false → mode_in (without i l) j ≡ mode_in l j
mode-without i [] j h = refl
mode-without i ((k, m) ∷ l) j h = elim (Bool-cases (k == i)) [
  | inl e ↦ rw (e, skipped i j k e h) (mode-without i l j h)
  | inr e ↦ rw (e, mode-without i l j h) refl
]

==_ne : (i j : ℕ) → j ≢ i → (i == j) ≡ false
==_ne i j n = ground (arith, n)

taken {ℓ} :
    {A : Type ℓ} (b : Bool) (x y : A) → (if b then some x else none) ≡ some y → (b ≡ true) × (y ≡ x)
taken true x y e = (refl, cc)
taken false x y e = absurd (none≢some e)

pub plain-mode-change :
    (i : ℕ) (new : Mode) (l l' : List (ℕ × Mode))
    → plain_change i new l ≡ some l'
    → (j : ℕ) → mode_in l' j ≡ replace (mode_in l) i new j
plain-mode-change i new l l' e j =
    let (c, x) = taken (clear i new l) _ l' e in
    rw (x)
      (elim (Bool-cases (i == j)) [ inl h ↦ rw (h) refl | inr h ↦ rw (h) (mode-without i l j h) ])

together_free : (m : Mode) → together m free ≡ true
unfolding together
together_free free = refl
together_free shared = refl
together_free upgrade = refl
together_free exclusive = refl

clear-together :
    (i : ℕ) (new : Mode) (l : List (ℕ × Mode))
    → clear i new l ≡ true
    → (j : ℕ) → (i == j) ≡ false
    → together new (mode_in l j) ≡ true
clear-together i new [] c j n = together_free new
clear-together i new ((k, m) ∷ l) c j n = elim (Bool-cases (k == i)) [
  | inl e ↦ rw (skipped i j k e n) (clear-together i new l (rw (e) at c) j n)
  | inr e ↦
      let (t, d) = and-true _ _ (rw (e) at c) in
      if_both (λ x. together new x ≡ true) (k == j) m (mode_in l j) (λ h. t)
        (λ h. clear-together i new l d j n)
]

pub plain-together-change :
    (i : ℕ) (new : Mode) (l l' : List (ℕ × Mode))
    → plain_change i new l ≡ some l'
    → (j : ℕ) → j ≢ i
    → together new (mode_in l j) ≡ true
plain-together-change i new l l' e j n =
    clear-together i new l (taken (clear i new l) _ l' e).0 j (==_ne i j n)

abbrev pub plain_mutex : UpgradeMutex
plain_mutex = record {
  Mutex = List (ℕ × Mode);
  unowned = [];
  mode = mode_in;
  change = plain_change;
  mode-unowned = λ i. refl;
  mode-change = plain-mode-change;
  together-change = plain-together-change;
}
