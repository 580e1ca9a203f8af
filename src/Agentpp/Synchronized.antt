-- ===== src/Agentpp/Synchronized.antt =====
-- threadpool.{hpp,cpp}: class Synchronized, over a boost::mutex and the identity `tid_` that the class
-- keeps of the thread that holds it.
pub mod Plain
pub mod Timed
use queued_thread_pool.Prelude.{
  ℕ, ◌≡◌, ◌≢◌, refl, sym, ap, ◌∙◌, Bool, true, false, Option, none, some, List, [], ◌∷◌, arith, inl,
  inr, Option-cases, ◌==◌, if◌then◌else◌, ℕ_discrete, and_then, view, Keeps, view-and_then_on,
}

-- A call that returns, or throws std::runtime_error.
pub data Outcome {ℓ} (A : Type ℓ) : Type ℓ where
  returned : A → Outcome A
  thrown : Outcome A

pub data TryLockResult : Type 0 where
  locked busy owned : TryLockResult

-- `try_lock`, which converts the result of `trylock` (1, 0 or -1) to bool
abbrev pub to_bool : TryLockResult → Bool
to_bool locked = true
to_bool busy = false
to_bool owned = true

-- A boost::mutex, as Boost documents it. `none`: the call blocks.
pub record BoostMutex : Type 1 where
  pub Mutex : Type 0
  pub owner : Mutex → Option ℕ
  pub lock : ℕ → Mutex → Option Mutex
  pub try_lock : ℕ → Mutex → Bool × Mutex
  pub unlock : Mutex → Mutex
  pub taken : ℕ → Mutex → Mutex
  pub owner-taken : (t : ℕ) (m : Mutex) → owner (taken t m) ≡ some t
  pub owner-unlock : (m : Mutex) → owner (unlock m) ≡ none
  pub lock_free : (t : ℕ) (m : Mutex) → owner m ≡ none → lock t m ≡ some (taken t m)
  pub lock_held : (t u : ℕ) (m : Mutex) → owner m ≡ some u → lock t m ≡ none
  pub try_lock_free : (t : ℕ) (m : Mutex) → owner m ≡ none → try_lock t m ≡ (true, taken t m)
  pub try_lock_held : (t u : ℕ) (m : Mutex) → owner m ≡ some u → try_lock t m ≡ (false, m)

pub data Call : Type 0 where
  locks trylocks unlocks : Call

-- What a call gives back.
pub data Reply : Type 0 where
  lock_reply : Outcome Bool → Reply
  trylock_reply : TryLockResult → Reply
  unlock_reply : Bool → Reply

-- `lock()` by the thread that holds the lock: throws, unless NDEBUG is defined
abbrev pub again : Bool → Outcome Bool
again ndebug = if ndebug then returned false else thrown

-- The same calls on a lock that is nothing but its holder: `lock` by the holder throws or fails, where
-- the header says that it succeeds; `trylock` by the holder answers OWNED, as the header says.
pub by_holder : Bool → ℕ → Call → Option ℕ → Option (Reply × Option ℕ)
by_holder ndebug t locks none = some (lock_reply (returned true), some t)
by_holder ndebug t locks (some u) =
    if t == u then some (lock_reply (again ndebug), some u) else none
by_holder ndebug t trylocks none = some (trylock_reply locked, some t)
by_holder ndebug t trylocks (some u) = some (trylock_reply (if t == u then owned else busy), some u)
by_holder ndebug t unlocks none = some (unlock_reply false, none)
by_holder ndebug t unlocks (some u) =
    if t == u then some (unlock_reply true, none) else some (unlock_reply false, some u)

-- A sequence of calls by threads, on such a lock.
pub all_by_holder : Bool → List (ℕ × Call) → Option ℕ → Option (List Reply × Option ℕ)
unfolding by_holder
all_by_holder ndebug [] o = some ([], o)
all_by_holder ndebug ((t, c) ∷ cs) o = and_then (by_holder ndebug t c o) (all_by_holder ndebug cs)

module _ (p : BoostMutex) where
  open p use {
    Mutex, owner, taken, owner-taken, owner-unlock, lock_free, lock_held, try_lock_free,
    try_lock_held,
  }

  -- `class Synchronized`: `mutex` and `tid_`, which is `none` for the identity of no thread
  pub record Synchronized : Type 0 where
    pub mutex : Mutex
    pub tid : Option ℕ

  -- `is_locked_by_this_thread`
  abbrev pub is_locked_by : ℕ → Option ℕ → Bool
  is_locked_by t none = false
  is_locked_by t (some u) = t == u

  abbrev acquired : ℕ → Mutex → Synchronized
  acquired t m = record { mutex = m; tid = some t }

  -- `lock()`
  pub lock : Bool → ℕ → Synchronized → Option (Outcome Bool × Synchronized)
  lock ndebug t s =
      if is_locked_by t s.tid
      then some (again ndebug, s)
      else elim (p.lock t s.mutex) [ none ↦ none | some m ↦ some (returned true, acquired t m) ]

  -- `trylock()`, by what `boost::mutex::try_lock` gives
  abbrev tried : ℕ → Synchronized → Bool × Mutex → TryLockResult × Synchronized
  tried t s (true, m) = (locked, acquired t m)
  tried t s (false, m) = (busy, record s { mutex = m })

  -- `trylock()`
  pub trylock : ℕ → Synchronized → TryLockResult × Synchronized
  trylock t s = if is_locked_by t s.tid then (owned, s) else tried t s (p.try_lock t s.mutex)

  -- `unlock()`
  pub unlock : ℕ → Synchronized → Bool × Synchronized
  unlock t s =
      if is_locked_by t s.tid
      then (true, record { mutex = p.unlock s.mutex; tid = none })
      else (false, s)

  -- One of the three calls.
  unfoldable pub call : Bool → ℕ → Call → Synchronized → Option (Reply × Synchronized)
  unfolding lock trylock unlock
  call ndebug t locks s = elim (lock ndebug t s) [
    | none ↦ none
    | some (r, s') ↦ some (lock_reply r, s')
  ]
  call ndebug t trylocks s = some (trylock_reply (trylock t s).0, (trylock t s).1)
  call ndebug t unlocks s = some (unlock_reply (unlock t s).0, (unlock t s).1)

  unfoldable pub call_all :
      Bool → List (ℕ × Call) → Synchronized → Option (List Reply × Synchronized)
  unfolding call
  call_all ndebug [] s = some ([], s)
  call_all ndebug ((t, c) ∷ cs) s = and_then (call ndebug t c s) (call_all ndebug cs)

  -- `tid_` is the holder of the mutex.
  abbrev pub Tracked : Synchronized → Type 0
  Tracked s = owner s.mutex ≡ s.tid

  call-by_holder :
      (ndebug : Bool) (t : ℕ) (c : Call) (s : Synchronized)
      → Tracked s
      → view (λ s. s.tid) (call ndebug t c s) ≡ by_holder ndebug t c s.tid
  unfolding call by_holder
  call-by_holder ndebug t locks s h = elim (Option-cases s.tid) [
    | inl e ↦ ground (arith, e, lock_free t s.mutex (h ∙ e))
    | inr (u, e) ↦ ground (arith, e, lock_held t u s.mutex (h ∙ e))
  ]
  call-by_holder ndebug t trylocks s h = elim (Option-cases s.tid) [
    | inl e ↦ ground (arith, e, try_lock_free t s.mutex (h ∙ e))
    | inr (u, e) ↦ ground (arith, e, try_lock_held t u s.mutex (h ∙ e))
  ]
  call-by_holder ndebug t unlocks s h = ground arith

  call-Tracked :
      (ndebug : Bool) (t : ℕ) (c : Call) (s : Synchronized)
      → Tracked s
      → Keeps (λ s. s.tid) Tracked (call ndebug t c s)
  unfolding call
  call-Tracked ndebug t locks s h = elim (Option-cases s.tid) [
    | inl e ↦ ground (arith, e, lock_free t s.mutex (h ∙ e), owner-taken t s.mutex)
    | inr (u, e) ↦ ground (arith, e, lock_held t u s.mutex (h ∙ e))
  ]
  call-Tracked ndebug t trylocks s h = elim (Option-cases s.tid) [
    | inl e ↦ ground (arith, e, try_lock_free t s.mutex (h ∙ e), owner-taken t s.mutex)
    | inr (u, e) ↦ ground (arith, e, try_lock_held t u s.mutex (h ∙ e))
  ]
  call-Tracked ndebug t unlocks s h = ground (arith, owner-unlock s.mutex)

  -- Over every boost::mutex that keeps the documented laws, from an object whose `tid_` is the holder of
  -- its mutex: any sequence of `lock`, `trylock` and `unlock` by any threads gives the replies, ends
  -- with the holder in `tid_`, and blocks at the calls, that a lock does which is nothing but its
  -- holder. There `lock` by the holder throws, or fails if NDEBUG is defined, not as the header says;
  -- `trylock` by the holder answers OWNED; `unlock` succeeds for the holder only.
  pub monitor_calls-by_holder :
      (ndebug : Bool) (cs : List (ℕ × Call)) (s : Synchronized)
      → Tracked s
      → view (λ s. s.tid) (call_all ndebug cs s) ≡ all_by_holder ndebug cs s.tid
  unfolding call_all all_by_holder
  monitor_calls-by_holder ndebug [] s h = refl
  monitor_calls-by_holder ndebug ((t, c) ∷ cs) s h =
      view-and_then_on (λ s. s.tid) Tracked (call ndebug t c s) _ _ (call-Tracked ndebug t c s h)
        (monitor_calls-by_holder ndebug cs)
      ∙ ap (λ x. and_then x (all_by_holder ndebug cs)) (call-by_holder ndebug t c s h)
