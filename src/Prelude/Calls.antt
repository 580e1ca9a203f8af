-- ===== src/Prelude/Calls.antt =====
-- A sequence of calls on an object, each of which gives a reply and the next state, or blocks (`none`).
use mathlib.Core.Path.{◌≡◌, refl, ap, ◌∙◌}
use mathlib.Core.Option.{Option, none, some}
use mathlib.Core.List.{List, ◌∷◌}

abbrev pub prepend {ℓ κ} : {R : Type ℓ} {S : Type κ} → R → Option (List R × S) → Option (List R × S)
prepend r none = none
prepend r (some (rs, s)) = some (r ∷ rs, s)

-- One call, then the rest of a sequence.
abbrev pub and_then {ℓ κ} :
    {R : Type ℓ} {S : Type κ} → Option (R × S) → (S → Option (List R × S)) → Option (List R × S)
and_then none k = none
and_then (some (r, s)) k = prepend r (k s)

module _ {ℓ κ μ} {S : Type κ} {S' : Type μ} (f : S → S') where
  -- Another state in the place of the state.
  abbrev pub view : {A : Type ℓ} → Option (A × S) → Option (A × S')
  view none = none
  view (some (a, s)) = some (a, f s)

  view-prepend :
      {R : Type ℓ} (r : R) (x : Option (List R × S)) → view (prepend r x) ≡ prepend r (view x)
  view-prepend r none = refl
  view-prepend r (some (rs, s)) = refl

  pub view-and_then :
      {R : Type ℓ} (x : Option (R × S)) (k : S → Option (List R × S))
      (k' : S' → Option (List R × S'))
      → ((s : S) → view (k s) ≡ k' (f s))
      → view (and_then x k) ≡ and_then (view x) k'
  view-and_then none k k' h = refl
  view-and_then (some (r, s)) k k' h = view-prepend r (k s) ∙ ap (prepend r) (h s)

  -- The same, for states that have a property which the call keeps.
  abbrev pub Keeps {ν} : {A : Type ℓ} → (S → Type ν) → Option (A × S) → Type ν
  Keeps P none = Unit
  Keeps P (some (a, s)) = P s

  pub view-and_then_on {ν} :
      {R : Type ℓ} (P : S → Type ν) (x : Option (R × S)) (k : S → Option (List R × S))
      (k' : S' → Option (List R × S'))
      → Keeps P x
      → ((s : S) → P s → view (k s) ≡ k' (f s))
      → view (and_then x k) ≡ and_then (view x) k'
  view-and_then_on P none k k' p h = refl
  view-and_then_on P (some (r, s)) k k' p h = view-prepend r (k s) ∙ ap (prepend r) (h s p)
