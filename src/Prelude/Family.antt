-- ===== src/Prelude/Family.antt =====
-- Families indexed by a thread's number: one entry replaced, and a weight added up over the first
-- `n` entries.
use Prim.Native.Nat.{ℕ, zero, suc, ◌+◌, ◌≤◌, ◌<◌}
use mathlib.Core.Path.{◌≡◌, refl, subst}
use mathlib.Core.Logic.{◌⊎◌, inl, inr}
use queued_thread_pool.Prelude.Tests.{◌==◌, if◌then◌else◌}
use native.Mathlib.Omega.{arith}
use native.Mathlib.Decide.{dec_lt}

abbrev pub replace {ℓ} : {A : Type ℓ} → (ℕ → A) → ℕ → A → ℕ → A
replace f i a j = if i == j then a else f j

module _ {ℓ} {A : Type ℓ} (weight : A → ℕ) where
  pub weigh : ℕ → (ℕ → A) → ℕ
  weigh zero f = 0
  weigh (suc n) f = weight (f n) + weigh n f

  weigh-replace_beyond :
      (n : ℕ) (f : ℕ → A) (i : ℕ) (a : A) → n ≤ i → weigh n (replace f i a) ≡ weigh n f
  unfolding weigh
  weigh-replace_beyond zero f i a h = refl
  weigh-replace_beyond (suc n) f i a h = ground (arith, weigh-replace_beyond n f i a)

  -- Replacing one entry moves the total by the difference of the two weights.
  pub weigh-replace :
      (n : ℕ) (f : ℕ → A) (i : ℕ) (a : A)
      → i < n
      → weigh n (replace f i a) + weight (f i) ≡ weigh n f + weight a
  unfolding weigh
  weigh-replace zero f i a h = absurd (omega arith)
  weigh-replace (suc n) f i a h = elim (dec_lt i n) [
    | yes inside ↦ ground (arith, weigh-replace n f i a inside)
    | no top ↦ ground (arith, weigh-replace_beyond n f i a)
  ]

  -- Replacing one entry takes no more than its weight away.
  pub weigh-replace_le :
      (n : ℕ) (f : ℕ → A) (i : ℕ) (a : A) → weigh n f ≤ weigh n (replace f i a) + weight (f i)
  weigh-replace_le n f i a = elim (dec_lt i n) [
    | yes inside ↦ omega (arith, weigh-replace n f i a inside)
    | no top ↦ omega (arith, weigh-replace_beyond n f i a (omega arith))
  ]

  pub weigh-eq_zero : (n : ℕ) (f : ℕ → A) → ((i : ℕ) → i < n → weight (f i) ≡ 0) → weigh n f ≡ 0
  unfolding weigh
  weigh-eq_zero zero f h = refl
  weigh-eq_zero (suc n) f h =
      omega (arith, h n (omega arith), weigh-eq_zero n f (λ i k. h i (omega arith)))

  -- An entry of the same weight changes nothing, wherever it stands.
  pub weigh-replace_same :
      (n : ℕ) (f : ℕ → A) (i : ℕ) (a : A)
      → weight a ≡ weight (f i)
      → weigh n (replace f i a) ≡ weigh n f
  unfolding weigh
  weigh-replace_same zero f i a h = refl
  weigh-replace_same (suc n) f i a h = ground (arith, weigh-replace_same n f i a h)

  pub weigh_cong :
      (n : ℕ) (f g : ℕ → A) → ((i : ℕ) → weight (f i) ≡ weight (g i)) → weigh n f ≡ weigh n g
  unfolding weigh
  weigh_cong zero f g h = refl
  weigh_cong (suc n) f g h = omega (arith, h n, weigh_cong n f g h)

  -- Weights of at most 1: they add up to `n` only if all of them are 1, and else there is one of 0.
  module _ (small : (a : A) → weight a ≤ 1) where
    weigh-le : (n : ℕ) (f : ℕ → A) → weigh n f ≤ n
    unfolding weigh
    weigh-le zero f = omega arith
    weigh-le (suc n) f = omega (arith, small (f n), weigh-le n f)

    pub weigh-full : (n : ℕ) (f : ℕ → A) → weigh n f ≡ n → (i : ℕ) → i < n → weight (f i) ≡ 1
    unfolding weigh
    weigh-full zero f e i h = absurd (omega arith)
    weigh-full (suc n) f e i h = elim (dec_lt i n) [
      | yes k ↦ weigh-full n f (omega (arith, e, small (f n), weigh-le n f)) i k
      | no k ↦
          let last : weight (f n) ≡ 1 = omega (arith, e, small (f n), weigh-le n f) in
          let same : n ≡ i = omega arith in subst (λ j. weight (f j) ≡ 1) same last
    ]

    pub weigh_find :
        (n : ℕ) (f : ℕ → A) → (weigh n f ≡ n) ⊎ ((i : ℕ) × (i < n) × (weight (f i) ≡ 0))
    unfolding weigh
    weigh_find zero f = inl refl
    weigh_find (suc n) f = elim (weigh_find n f) [
      | inr (i, h, e) ↦ inr (i, omega arith, e)
      | inl e ↦ elim (dec_lt 0 (weight (f n))) [
        | yes h ↦ inl (omega (arith, small (f n)))
        | no h ↦ inr (n, omega arith, omega arith)
      ]
    ]
