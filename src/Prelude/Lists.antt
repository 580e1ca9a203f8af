-- ===== src/Prelude/Lists.antt =====
-- Lists measured and indexed by native numbers, and the occurrences of a number in one.
use Prim.Native.Nat.{ℕ, suc, ◌+◌}
use mathlib.Core.Path.{◌≡◌, refl}
use mathlib.Core.List.{List, [], ◌∷◌, ◌++◌}
use mathlib.Core.Option.{Option, none, some}
use mathlib.Core.Bool.{Bool, true, false}
use native.Mathlib.Omega.{arith}
use queued_thread_pool.Prelude.Tests.{◌==◌, if◌then◌else◌}

module _ {ℓ} {A : Type ℓ} where
  abbrev pub length : List A → ℕ
  length [] = 0
  length (x ∷ xs) = suc (length xs)

  pub length-append : (xs ys : List A) → length (xs ++ ys) ≡ length xs + length ys
  length-append [] ys = omega arith
  length-append (x ∷ xs) ys = omega (arith, length-append xs ys)

  abbrev pub is_empty : List A → Bool
  is_empty [] = true
  is_empty (x ∷ xs) = false

  abbrev pub front : List A → Option A
  front [] = none
  front (x ∷ xs) = some x

  abbrev pub rest : List A → List A
  rest [] = []
  rest (x ∷ xs) = xs

  abbrev pub is_some : Option A → Bool
  is_some none = false
  is_some (some a) = true

  abbrev pub option_to_list : Option A → List A
  option_to_list none = []
  option_to_list (some a) = a ∷ []

-- 1 if the two numbers are equal, else 0.
abbrev pub same : ℕ → ℕ → ℕ
same x y = if x == y then 1 else 0

pub count : ℕ → List ℕ → ℕ
count x [] = 0
count x (y ∷ ys) = same x y + count x ys

pub count-append : (x : ℕ) (xs ys : List ℕ) → count x (xs ++ ys) ≡ count x xs + count x ys
unfolding count
count-append x [] ys = omega arith
count-append x (z ∷ xs) ys = omega (arith, count-append x xs ys)

pub count-single : (x y : ℕ) → count x (y ∷ []) ≡ same x y
unfolding count
count-single x y = omega arith

pub count-cons : (x y : ℕ) (ys : List ℕ) → count x (y ∷ ys) ≡ count x (y ∷ []) + count x ys
unfolding count
count-cons x y ys = omega arith

pub count-nil : (x : ℕ) → count x [] ≡ 0
unfolding count
count-nil x = refl
