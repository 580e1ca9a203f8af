-- ===== src/QuickSort/Sorted.antt =====
-- parallel_quick_sort.cpp: the result is an ascending permutation of the input.
use native.Mathlib.Nat.{ℕ_set}
use mathlib.Core.Logic.{∥∥₁_elim}
use mathlib.Core.Bool.{Bool-set}
use mathlib.Core.List.{Mem, forall_mem-cons, Perm, Permᴰ, Pairwise, Pairwise-append, perm_middle}
use mathlib.Core.List.Perm
use queued_thread_pool.Prelude.{
  ℕ, zero, suc, ◌+◌, ◌≤◌, ◌≡◌, refl, sym, ap, ◌∙◌, true, false, Option, some, List, [], ◌∷◌, ◌++◌,
  length, length-append, arith, Bool-cases, inl, inr,
}
use queued_thread_pool.QuickSort.{
  Less, Partition, joined, lower_part, higher_part, do_sort, parallel_quick_sort,
}

true≢false : true ≡ false → ⊥
true≢false e = cc

-- The number of elements, which is native
length-Permᴰ {ℓ} : {A : Type ℓ} {l m : List A} → Permᴰ l m → length l ≡ length m
length-Permᴰ Permᴰ.nil = refl
length-Permᴰ (Permᴰ.cons e p) = ap suc (length-Permᴰ p)
length-Permᴰ (Permᴰ.swap e f) = refl
length-Permᴰ (Permᴰ.trans p q) = length-Permᴰ p ∙ length-Permᴰ q

length-Perm {ℓ} : {A : Type ℓ} {l m : List A} → Perm l m → length l ≡ length m
length-Perm {l} {m} p = ∥∥₁_elim p (ℕ_set (length l) (length m)) length-Permᴰ

module _ {ℓ} {A : Type ℓ} (o : Less A) (s : Partition A) where
  open o use {less, less_asym, less_trans}
  open s use {partition, partition-perm, partition-holds, partition-fails}

  -- No element is less than one before it.
  abbrev pub Ascending : List A → Type ℓ
  Ascending = Pairwise (λ a b. less b a ≡ false)

  -- The sort returns a list; it ascends, and has the elements of `l`.
  abbrev pub Sorts : List A → Option (List A) → Type ℓ
  Sorts l r = (m : List A) × (r ≡ some m) × Ascending m × Perm m l

  apart : (a pivot b : A) → less a pivot ≡ true → less b pivot ≡ false → less b a ≡ false
  apart a pivot b h k = elim (Bool-cases (less b a)) [
    | inl e ↦ absurd (true≢false (sym (less_trans b a pivot e h) ∙ k))
    | inr e ↦ e
  ]

  joined-Sorts :
      (pivot : A) (l : List A) (r r' : Option (List A))
      → Sorts (lower_part o s pivot l) r
      → Sorts (higher_part o s pivot l) r'
      → Sorts (pivot ∷ l) (joined pivot r r')
  joined-Sorts pivot l r r' (m, e, am, pm) (h, e', ah, ph) =
      let below : (a : A) → Mem a m → less a pivot ≡ true =
        (λ a n. partition-holds (λ val. less val pivot) l a ((Perm.mem_iff pm).0 n)) in
      let above : (a : A) → Mem a h → less a pivot ≡ false =
        (λ a n. partition-fails (λ val. less val pivot) l a ((Perm.mem_iff ph).0 n)) in
      (
        m ++ pivot ∷ h,
        rw (e, e') refl,
        (Pairwise-append (λ a b. Bool-set (less b a) false)).1 (
          am,
          Pairwise.cons above ah,
          λ a n.
              (forall_mem-cons (λ b. Bool-set (less b a) false)).1
                (less_asym a pivot (below a n), λ b k. apart a pivot b (below a n) (above b k)),
        ),
        Perm.trans (perm_middle m h) (
            Perm.cons pivot
              (Perm.trans (Perm.append pm ph) (partition-perm (λ val. less val pivot) l))),
      )

  -- As many calls as there are elements are enough.
  do_sort-Sorts : (n : ℕ) (l : List A) → length l ≤ n → Sorts l (do_sort o s n l)
  unfolding do_sort
  do_sort-Sorts n [] h = ([], refl, Pairwise.nil, Perm.nil)
  do_sort-Sorts zero (pivot ∷ l) h = absurd (omega arith)
  do_sort-Sorts (suc n) (pivot ∷ l) h =
      let parts : length (lower_part o s pivot l) + length (higher_part o s pivot l) ≡ length l =
        sym (length-append (lower_part o s pivot l) (higher_part o s pivot l))
        ∙ length-Perm (partition-perm (λ val. less val pivot) l) in
      joined-Sorts pivot l _ _ (do_sort-Sorts n (lower_part o s pivot l) (omega (arith, parts)))
        (do_sort-Sorts n (higher_part o s pivot l) (omega (arith, parts)))

  -- For a strict weak order, and any partition as the standard documents it: parallel_quick_sort
  -- returns, its result is a permutation of the input, and no element of it is less than one before.
  pub sorts : (l : List A) → Sorts l (parallel_quick_sort o s l)
  unfolding parallel_quick_sort
  sorts l = do_sort-Sorts (length l) l (omega arith)
