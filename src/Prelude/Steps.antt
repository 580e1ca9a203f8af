-- ===== src/Prelude/Steps.antt =====
-- A property of the state after a step, if the step can be made.
use mathlib.Core.Path.{◌≡◌, refl, subst}
use mathlib.Core.Bool.{Bool, true, false}
use mathlib.Core.Logic.{inl, inr}
use mathlib.Core.Option.{Option, none, some}
use mathlib.Core.List.{List, [], ◌∷◌}
use queued_thread_pool.Prelude.Tests.{if◌then◌else◌, Option-cases}

abbrev pub guarded {ℓ} : {S : Type ℓ} → Bool → Option S → Option S
guarded true r = r
guarded false r = none

abbrev pub After {ℓ κ} : {S : Type κ} → (S → Type ℓ) → Option S → Type ℓ
After P none = Unit
After P (some s) = P s

module _ {ℓ κ} {S : Type κ} (P : S → Type ℓ) where
  pub After-if :
      (b : Bool) (x y : Option S)
      → (b ≡ true → After P x)
      → (b ≡ false → After P y)
      → After P (if b then x else y)
  After-if true x y p q = p refl
  After-if false x y p q = q refl

  -- A step that waits for a mutex.
  pub After-lock : (b : Bool) (s : S) → (b ≡ false → P s) → After P (if b then none else some s)
  After-lock true s p = tt
  After-lock false s p = p refl

  pub After-guarded : (b : Bool) (r : Option S) → (b ≡ true → After P r) → After P (guarded b r)
  After-guarded true r p = p refl
  After-guarded false r p = tt

  pub After-some : {r : Option S} {t : S} → r ≡ some t → After P r → P t
  After-some e p = subst (After P) e p

pub none≢some {ℓ} : {A : Type ℓ} {a : A} → ◌≡◌ {A = Option A} none (some a) → ⊥
none≢some e = cc

-- A whole schedule, executed; `none` if one of its steps cannot be made.
abbrev pub follow {ℓ κ} : {A : Type κ} {S : Type ℓ} → (A → S → Option S) → List A → S → Option S
follow step [] s = some s
follow step (a ∷ l) s = elim (step a s) [ none ↦ none | some t ↦ follow step l t ]

abbrev pub or_else {ℓ} : {S : Type ℓ} → S → Option S → S
or_else s none = s
or_else s (some t) = t

module _ {ℓ κ ν} {A : Type κ} {S : Type ℓ} (step : A → S → Option S) (P : S → Type ν) where
  -- What the steps keep holds after a schedule.
  pub followed :
      ((a : A) (s t : S) → P s → step a s ≡ some t → P t)
      → (l : List A) {s t : S} → P s
      → follow step l s ≡ some t
      → P t
  followed next [] p e = After-some P e p
  followed next (a ∷ l) {s = s} p e = elim (Option-cases (step a s)) [
    | inl f ↦ absurd (none≢some (rw (f, follow) at e))
    | inr (t, f) ↦ followed next l (next a s t p f) (rw (f, follow) at e)
  ]
