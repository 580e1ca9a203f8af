-- ===== src/SharedMutex/Invariant.antt =====
-- shared_mutex.cpp: what holds of the mutex, of `state` and of the threads.
use queued_thread_pool.Prelude.{
  equal, ℕ, ◌≡◌, ◌≢◌, refl, sym, subst, ◌∙◌, true, false, replace, ◌==◌, if_both, inl, inr,
  Bool-cases, arith,
}
use queued_thread_pool.SharedMutex.Modes.{
  Mode, free, shared, upgrade, exclusive, together, UpgradeMutex,
}
use queued_thread_pool.SharedMutex.Loops.{Phase, reading, writing, same_phase, same_mode, checked}
use queued_thread_pool.SharedMutex.System.{Place, testing, inside, ended, Thread, System}

-- What a thread that owns the mutex so may rely on.
abbrev pub seen : Mode → Phase → Phase
seen exclusive p = p
seen _ p = reading

abbrev pub At : Mode → Phase → Place → Type 0
At m p testing = m ≡ free
At m p (inside k) = checked m (seen m p) k ≡ true
At m p ended = m ≡ free

abbrev pub Sound : Mode → Phase → Thread → Type 0
Sound m p t = (checked free reading t.body ≡ true) × At m p t.place

pub alone : (m : Mode) → together exclusive m ≡ true → m ≡ free
unfolding together
alone free h = refl
alone shared h = ground (arith, h)
alone upgrade h = ground (arith, h)
alone exclusive h = ground (arith, h)

pub not_both : together exclusive exclusive ≡ true → ⊥
unfolding together
not_both h = ground (arith, h)

pub together-sym : (m n : Mode) → together m n ≡ true → together n m ≡ true
unfolding together
together-sym free free h = h
together-sym free shared h = h
together-sym free upgrade h = h
together-sym free exclusive h = h
together-sym shared free h = h
together-sym shared shared h = h
together-sym shared upgrade h = h
together-sym shared exclusive h = h
together-sym upgrade free h = h
together-sym upgrade shared h = h
together-sym upgrade upgrade h = h
together-sym upgrade exclusive h = h
together-sym exclusive free h = h
together-sym exclusive shared h = h
together-sym exclusive upgrade h = h
together-sym exclusive exclusive h = h

pub same_mode→eq : (m n : Mode) → same_mode m n ≡ true → m ≡ n
same_mode→eq free free h = refl
same_mode→eq shared shared h = refl
same_mode→eq upgrade upgrade h = refl
same_mode→eq exclusive exclusive h = refl
same_mode→eq _ _ h = ground (arith, h)

pub same_phase→eq : (p r : Phase) → same_phase p r ≡ true → p ≡ r
same_phase→eq reading reading h = refl
same_phase→eq writing writing h = refl
same_phase→eq _ _ h = ground (arith, h)

pub ne_of : (i j : ℕ) → (i == j) ≡ false → j ≢ i
ne_of i j h e = ground (arith, h, e)

pub apart-replace :
    (f : ℕ → Mode) (i : ℕ) (new : Mode)
    → ((j k : ℕ) → j ≢ k → together (f j) (f k) ≡ true)
    → ((j : ℕ) → j ≢ i → together new (f j) ≡ true)
    → (j k : ℕ) → j ≢ k
    → together (replace f i new j) (replace f i new k) ≡ true
apart-replace f i new a t j k h = elim (Bool-cases (i == j)) [
  | inl e ↦ elim (Bool-cases (i == k)) [
    | inl e' ↦ absurd (h (sym (equal i j e) ∙ equal i k e'))
    | inr e' ↦ rw (e, e') (t k (ne_of i k e'))
  ]
  | inr e ↦ elim (Bool-cases (i == k)) [
    | inl e' ↦ rw (e, e') (together-sym new (f j) (t j (ne_of i j e)))
    | inr e' ↦ rw (e, e') (a j k h)
  ]
]

pub replace-other {ℓ} :
    {A : Type ℓ} (f : ℕ → A) (i : ℕ) (a : A) (j : ℕ) → j ≢ i → replace f i a j ≡ f j
replace-other f i a j h = elim (Bool-cases (i == j)) [
  | inl e ↦ absurd (h (sym (equal i j e)))
  | inr e ↦ rw (e) refl
]

-- A property of every entry, after one was replaced.
pub replaced {ℓ κ} :
    {A : Type ℓ} (P : ℕ → A → Type κ) (f : ℕ → A) (i : ℕ) (a : A)
    → P i a
    → ((j : ℕ) → j ≢ i → P j (f j))
    → (j : ℕ) → P j (replace f i a j)
replaced P f i a p h j =
    if_both (P j) (i == j) a (f j) (λ e. subst (λ k. P k a) (equal i j e) p)
      (λ e. h j (ne_of i j e))

module _ (u : UpgradeMutex) where
  open u use {Mutex, unowned, mode, change, mode-unowned, mode-change, together-change}

  pub record Good (s : System u) : Type 0 where
    pub apart : (i j : ℕ) → i ≢ j → together (mode s.mutex i) (mode s.mutex j) ≡ true
    pub writer : s.state ≡ writing → (i : ℕ) × (mode s.mutex i ≡ exclusive)
    pub sound : (i : ℕ) → Sound (mode s.mutex i) s.state (s.threads i)
    pub passed : s.failed ≡ false
