-- ===== src/Posix/Synchronized/Plain.antt =====
-- A mutex that is nothing but its owner keeps the documented laws.
use queued_thread_pool.Prelude.{
  ℕ, ◌≡◌, ◌≢◌, refl, sym, ap, ◌∙◌, Option, none, some, arith, ◌==◌, if◌then◌else◌,
}
use queued_thread_pool.Posix.Synchronized.{Errno, success, edeadlk, ebusy, eperm, ErrorCheckMutex}

abbrev pub plain_lock : ℕ → Option ℕ → Option (Errno × Option ℕ)
plain_lock t none = some (success, some t)
plain_lock t (some u) = if u == t then some (edeadlk, some u) else none

abbrev pub plain_trylock : ℕ → Option ℕ → Errno × Option ℕ
plain_trylock t none = (success, some t)
plain_trylock t (some u) = (ebusy, some u)

abbrev pub plain_unlock : ℕ → Option ℕ → Errno × Option ℕ
plain_unlock t none = (eperm, none)
plain_unlock t (some u) = if u == t then (success, none) else (eperm, some u)

pub plain_lock_again : (t : ℕ) (m : Option ℕ) → m ≡ some t → plain_lock t m ≡ some (edeadlk, m)
plain_lock_again t m e = ground arith

pub plain_lock_held : (t u : ℕ) (m : Option ℕ) → m ≡ some u → u ≢ t → plain_lock t m ≡ none
plain_lock_held t u m e h = ground arith

pub plain_unlock_own : (t : ℕ) (m : Option ℕ) → m ≡ some t → plain_unlock t m ≡ (success, none)
plain_unlock_own t m e = ground arith

pub plain_unlock_held :
    (t u : ℕ) (m : Option ℕ) → m ≡ some u → u ≢ t → plain_unlock t m ≡ (eperm, m)
plain_unlock_held t u m e h = ground arith

abbrev pub plain_mutex : ErrorCheckMutex
plain_mutex = record {
  Mutex = Option ℕ;
  owner = λ m. m;
  acquired = λ t m. some t;
  released = λ m. none;
  mutex_lock = plain_lock;
  mutex_trylock = plain_trylock;
  mutex_unlock = plain_unlock;
  owner-acquired = λ t m. refl;
  owner-released = λ m. refl;
  lock_free = λ t m e. ap (plain_lock t) e;
  lock_again = plain_lock_again;
  lock_held = plain_lock_held;
  trylock_free = λ t m e. ap (plain_trylock t) e;
  trylock_held = λ t u m e. ap (plain_trylock t) e ∙ ap (λ o. (ebusy, o)) (sym e);
  unlock_own = plain_unlock_own;
  unlock_free = λ t m e. ap (plain_unlock t) e ∙ ap (λ o. (eperm, o)) (sym e);
  unlock_held = plain_unlock_held;
}
