-- ===== src/Posix/Synchronized.antt =====
-- posix/threadpool.cpp: class Synchronized, over the pthread mutex that it owns.
pub mod Plain
use queued_thread_pool.Prelude.{
  ℕ, ◌↔◌, ◌≡◌, ◌≢◌, refl, sym, ap, ◌∙◌, Bool, true, false, Option, none, some, List, [], ◌∷◌, arith,
  inl, inr, Option-cases, ◌==◌, if◌then◌else◌, ℕ_discrete, and_then, view, view-and_then,
}

-- The results of the pthread calls that the code tells apart.
pub data Errno : Type 0 where
  success edeadlk ebusy eperm einval etimedout other : Errno

-- A call that returns, or throws std::runtime_error.
pub data Outcome {ℓ} (A : Type ℓ) : Type ℓ where
  returned : A → Outcome A
  thrown : Outcome A

pub data TryLockResult : Type 0 where
  locked busy owned : TryLockResult

-- `lock()`, and `lock(unsigned long timeout)`, by what pthread_mutex_(timed)lock returns
pub lock : Errno → Outcome Bool
lock success = returned true
lock edeadlk = thrown
lock _ = returned false

-- `trylock()`, by what pthread_mutex_trylock returns
pub trylock : Errno → Outcome TryLockResult
trylock success = returned locked
trylock edeadlk = thrown
trylock _ = returned busy

-- `unlock()`, by what pthread_mutex_unlock returns
pub unlock : Errno → Bool
unlock success = true
unlock _ = false

-- `cond_timed_wait`, which passes the error on unless it throws
pub cond_timed_wait : Errno → Outcome Errno
cond_timed_wait einval = thrown
cond_timed_wait e = returned e

timeout_occurred : Errno → Bool
timeout_occurred einval = true
timeout_occurred etimedout = true
timeout_occurred _ = false

-- `wait(long timeout)`, by what pthread_cond_timedwait returns; true: the timeout occurred
pub timed_wait : Errno → Outcome Bool
unfolding cond_timed_wait timeout_occurred
timed_wait e = elim (cond_timed_wait e) [
  | thrown ↦ thrown
  | returned f ↦ returned (timeout_occurred f)
]

-- `wait()`, by what pthread_cond_wait returns
pub wait : Errno → Outcome (Unit {0})
wait einval = thrown
wait _ = returned tt

-- `wait` with a timeout throws exactly when pthread_cond_timedwait has refused an argument as invalid,
-- reports a timeout exactly when it has reported one, and reports a wakeup exactly when it has
-- returned anything else, an error other than these two included.
pub timed_wait_iff :
    (e : Errno)
    → ((timed_wait e ≡ thrown) ↔ (e ≡ einval))
      × ((timed_wait e ≡ returned true) ↔ (e ≡ etimedout))
      × ((timed_wait e ≡ returned false) ↔ ((e ≢ einval) × (e ≢ etimedout)))
unfolding timed_wait
timed_wait_iff einval =
    ((λ h. refl, λ h. refl), (λ h. cc, λ h. cc), (λ h. cc, λ h. absurd (h.0 refl)))
timed_wait_iff etimedout =
    ((λ h. cc, λ h. cc), (λ h. refl, λ h. refl), (λ h. cc, λ h. absurd (h.1 refl)))
timed_wait_iff _ = ((λ h. cc, λ h. cc), (λ h. cc, λ h. cc), (λ h. (λ k. cc, λ k. cc), λ h. refl))

-- A pthread mutex of type PTHREAD_MUTEX_ERRORCHECK, as POSIX documents it. `none`: the call blocks.
pub record ErrorCheckMutex : Type 1 where
  pub Mutex : Type 0
  pub owner : Mutex → Option ℕ
  pub acquired : ℕ → Mutex → Mutex
  pub released : Mutex → Mutex
  pub mutex_lock : ℕ → Mutex → Option (Errno × Mutex)
  pub mutex_trylock : ℕ → Mutex → Errno × Mutex
  pub mutex_unlock : ℕ → Mutex → Errno × Mutex
  pub owner-acquired : (t : ℕ) (m : Mutex) → owner (acquired t m) ≡ some t
  pub owner-released : (m : Mutex) → owner (released m) ≡ none
  pub lock_free :
      (t : ℕ) (m : Mutex) → owner m ≡ none → mutex_lock t m ≡ some (success, acquired t m)
  pub lock_again : (t : ℕ) (m : Mutex) → owner m ≡ some t → mutex_lock t m ≡ some (edeadlk, m)
  pub lock_held : (t u : ℕ) (m : Mutex) → owner m ≡ some u → u ≢ t → mutex_lock t m ≡ none
  pub trylock_free :
      (t : ℕ) (m : Mutex) → owner m ≡ none → mutex_trylock t m ≡ (success, acquired t m)
  pub trylock_held : (t u : ℕ) (m : Mutex) → owner m ≡ some u → mutex_trylock t m ≡ (ebusy, m)
  pub unlock_own : (t : ℕ) (m : Mutex) → owner m ≡ some t → mutex_unlock t m ≡ (success, released m)
  pub unlock_free : (t : ℕ) (m : Mutex) → owner m ≡ none → mutex_unlock t m ≡ (eperm, m)
  pub unlock_held : (t u : ℕ) (m : Mutex) → owner m ≡ some u → u ≢ t → mutex_unlock t m ≡ (eperm, m)

-- The calls of the class that touch its mutex.
pub data Call : Type 0 where
  locks trylocks unlocks : Call

-- What a call gives back.
pub data Reply : Type 0 where
  lock_reply : Outcome Bool → Reply
  trylock_reply : Outcome TryLockResult → Reply
  unlock_reply : Bool → Reply

-- The same calls on a lock that is nothing but its holder: `lock` by the holder throws, where the
-- header says that it succeeds; it blocks while another thread holds the lock; `trylock` succeeds on a
-- free lock only, and answers BUSY to the holder, where the header says OWNED; `unlock` succeeds for
-- the holder only.
pub by_holder : ℕ → Call → Option ℕ → Option (Reply × Option ℕ)
by_holder t locks none = some (lock_reply (returned true), some t)
by_holder t locks (some u) = if u == t then some (lock_reply thrown, some u) else none
by_holder t trylocks none = some (trylock_reply (returned locked), some t)
by_holder t trylocks (some u) = some (trylock_reply (returned busy), some u)
by_holder t unlocks none = some (unlock_reply false, none)
by_holder t unlocks (some u) =
    if u == t then some (unlock_reply true, none) else some (unlock_reply false, some u)

-- A sequence of calls by threads, on such a lock.
pub all_by_holder : List (ℕ × Call) → Option ℕ → Option (List Reply × Option ℕ)
unfolding by_holder
all_by_holder [] o = some ([], o)
all_by_holder ((t, c) ∷ cs) o = and_then (by_holder t c o) (all_by_holder cs)

module _ (p : ErrorCheckMutex) where
  open p use {
    Mutex, owner, acquired, released, mutex_lock, mutex_trylock, mutex_unlock, owner-acquired,
    owner-released, lock_free, lock_again, lock_held, trylock_free, trylock_held, unlock_own,
    unlock_free, unlock_held,
  }

  -- A call on the object: the pthread call, and what the class makes of its result.
  pub call : ℕ → Call → Mutex → Option (Reply × Mutex)
  unfolding lock trylock unlock
  call t locks m = elim (mutex_lock t m) [
    | none ↦ none
    | some (e, m') ↦ some (lock_reply (lock e), m')
  ]
  call t trylocks m = some (trylock_reply (trylock (mutex_trylock t m).0), (mutex_trylock t m).1)
  call t unlocks m = some (unlock_reply (unlock (mutex_unlock t m).0), (mutex_unlock t m).1)

  unfoldable pub call_all : List (ℕ × Call) → Mutex → Option (List Reply × Mutex)
  unfolding call
  call_all [] m = some ([], m)
  call_all ((t, c) ∷ cs) m = and_then (call t c m) (call_all cs)

  call-by_holder :
      (t : ℕ) (c : Call) (m : Mutex) → view owner (call t c m) ≡ by_holder t c (owner m)
  unfolding call by_holder
  call-by_holder t locks m = elim (Option-cases (owner m)) [
    | inl e ↦ rw (lock_free t m e, e, call) (rw (owner-acquired t m) refl)
    | inr (u, e) ↦ elim (ℕ_discrete u t) [
      | yes h ↦ rw (lock_again t m (e ∙ ap some h), e, call, by_holder) (ground (arith, e))
      | no h ↦ rw (lock_held t u m e h, e, call, by_holder) (ground arith)
    ]
  ]
  call-by_holder t trylocks m = elim (Option-cases (owner m)) [
    | inl e ↦ rw (trylock_free t m e, e, call) (rw (owner-acquired t m) refl)
    | inr (u, e) ↦ rw (trylock_held t u m e, e, call) refl
  ]
  call-by_holder t unlocks m = elim (Option-cases (owner m)) [
    | inl e ↦ rw (unlock_free t m e, e, call) refl
    | inr (u, e) ↦ elim (ℕ_discrete u t) [
      | yes h ↦
          rw (unlock_own t m (e ∙ ap some h), e, call, by_holder) (ground (arith, owner-released m))
      | no h ↦ rw (unlock_held t u m e h, e, call, by_holder) (ground (arith, e))
    ]
  ]

  -- Over every pthread mutex that keeps the documented laws: any sequence of `lock`, `trylock` and
  -- `unlock` by any threads gives the replies, ends with the holder, and blocks at the calls, that a
  -- lock does which is nothing but its holder. There `lock` by the holder throws and `trylock` by the
  -- holder answers BUSY, not as the header says, and `unlock` succeeds for the holder only.
  pub call_all-by_holder :
      (cs : List (ℕ × Call)) (m : Mutex) → view owner (call_all cs m) ≡ all_by_holder cs (owner m)
  unfolding call_all all_by_holder
  call_all-by_holder [] m = refl
  call_all-by_holder ((t, c) ∷ cs) m =
      view-and_then owner (call t c m) _ _ (call_all-by_holder cs)
      ∙ ap (λ x. and_then x (all_by_holder cs)) (call-by_holder t c m)
