-- ===== src/QuickSort.antt =====
-- parallel_quick_sort.cpp: `sorter::do_sort` and `parallel_quick_sort`. The value of a future is that
-- of the call that the pool executes for it, whichever thread does.
pub mod Plain
pub mod Sorted
mod Tests
use queued_thread_pool.Prelude.{
  ℕ, zero, suc, ◌≡◌, Bool, true, false, Option, none, some, List, [], ◌∷◌, ◌++◌, length,
}
use mathlib.Core.List.{Mem, Perm}

-- The operator < of the elements, a strict weak order
pub record Less {ℓ} (A : Type ℓ) : Type ℓ where
  pub less : A → A → Bool
  pub less_asym : (a b : A) → less a b ≡ true → less b a ≡ false
  pub less_trans : (a b c : A) → less a b ≡ true → less b c ≡ true → less a c ≡ true

-- std::partition, as the standard documents it: what stands before the point that it returns, and
-- what stands from there on
pub record Partition {ℓ} (A : Type ℓ) : Type ℓ where
  pub partition : (A → Bool) → List A → List A × List A
  pub partition-perm : (p : A → Bool) (l : List A) → Perm ((partition p l).0 ++ (partition p l).1) l
  pub partition-holds : (p : A → Bool) (l : List A) (a : A) → Mem a (partition p l).0 → p a ≡ true
  pub partition-fails : (p : A → Bool) (l : List A) (a : A) → Mem a (partition p l).1 → p a ≡ false

-- The two splices into `result`, when both parts have been sorted
abbrev pub joined {ℓ} : {A : Type ℓ} → A → Option (List A) → Option (List A) → Option (List A)
joined pivot (some lower) (some higher) = some (lower ++ pivot ∷ higher)
joined pivot _ _ = none

module _ {ℓ} {A : Type ℓ} (o : Less A) (s : Partition A) where
  open o use {less}
  open s use {partition}

  abbrev pub lower_part : A → List A → List A
  lower_part pivot l = (partition (λ val. less val pivot) l).0

  abbrev pub higher_part : A → List A → List A
  higher_part pivot l = (partition (λ val. less val pivot) l).1

  -- `do_sort`, down to a depth of calls; `none` if it does not suffice
  unfoldable pub do_sort : ℕ → List A → Option (List A)
  do_sort n [] = some []
  do_sort zero (pivot ∷ l) = none
  do_sort (suc n) (pivot ∷ l) =
      joined pivot (do_sort n (lower_part pivot l)) (do_sort n (higher_part pivot l))

  -- A depth of as many calls as there are elements
  unfoldable pub parallel_quick_sort : List A → Option (List A)
  unfolding do_sort
  parallel_quick_sort l = do_sort (length l) l
