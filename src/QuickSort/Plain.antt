-- ===== src/QuickSort/Plain.antt =====
-- The order of the numbers, and a partition that keeps the order of the elements, keep the laws.
use mathlib.Core.Bool.{Bool-set}
use mathlib.Core.List.{Mem, Perm, forall_mem-cons, not-mem-nil, perm_middle}
use mathlib.Core.List.Perm
use queued_thread_pool.Prelude.{
  ℕ, ◌≡◌, Bool, true, false, List, [], ◌∷◌, ◌++◌, ltb, arith, if◌then◌else◌, if_both,
}
use queued_thread_pool.QuickSort.{Less, Partition}

abbrev pub plain_put {ℓ} : {A : Type ℓ} → Bool → A → List A × List A → List A × List A
plain_put b a (l, h) = if b then (a ∷ l, h) else (l, a ∷ h)

abbrev pub plain_partition {ℓ} : {A : Type ℓ} → (A → Bool) → List A → List A × List A
plain_partition p [] = ([], [])
plain_partition p (a ∷ l) = plain_put (p a) a (plain_partition p l)

module _ {ℓ} {A : Type ℓ} (p : A → Bool) where
  pub plain-perm : (l : List A) → Perm ((plain_partition p l).0 ++ (plain_partition p l).1) l
  plain-perm [] = Perm.nil
  plain-perm (a ∷ l) =
      let (lower, higher) = plain_partition p l in
      let q : Perm (lower ++ higher) l = plain-perm l in
      if_both (λ (x : List A × List A). Perm (x.0 ++ x.1) (a ∷ l)) (p a) (a ∷ lower, higher)
        (lower, a ∷ higher) (λ e. Perm.cons a q)
        (λ e. Perm.trans (perm_middle lower higher) (Perm.cons a q))

  abbrev Parted : List A × List A → Type ℓ
  Parted x = ((a : A) → Mem a x.0 → p a ≡ true) × ((a : A) → Mem a x.1 → p a ≡ false)

  pub plain-Parted : (l : List A) → Parted (plain_partition p l)
  plain-Parted [] = (λ a m. absurd (not-mem-nil m), λ a m. absurd (not-mem-nil m))
  plain-Parted (a ∷ l) =
      let (lower, higher) = plain_partition p l in
      let (t, f) = plain-Parted l in
      if_both Parted (p a) (a ∷ lower, higher) (lower, a ∷ higher)
        (λ e. ((forall_mem-cons (λ b. Bool-set (p b) true)).1 (e, t), f))
        (λ e. (t, (forall_mem-cons (λ b. Bool-set (p b) false)).1 (e, f)))

abbrev pub stable {ℓ} : {A : Type ℓ} → Partition A
stable = record {
  partition = plain_partition;
  partition-perm = plain-perm;
  partition-holds = λ p l. (plain-Parted p l).0;
  partition-fails = λ p l. (plain-Parted p l).1;
}

pub ltb_asym : (a b : ℕ) → ltb a b ≡ true → ltb b a ≡ false
ltb_asym a b h = ground arith

pub ltb_trans : (a b c : ℕ) → ltb a b ≡ true → ltb b c ≡ true → ltb a c ≡ true
ltb_trans a b c h k = ground arith

abbrev pub numbers : Less ℕ
numbers = record { less = ltb; less_asym = ltb_asym; less_trans = ltb_trans }
