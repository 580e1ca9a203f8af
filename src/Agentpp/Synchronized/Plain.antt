-- ===== src/Agentpp/Synchronized/Plain.antt =====
-- A mutex that is nothing but its owner keeps the documented laws of boost::mutex.
use queued_thread_pool.Prelude.{ℕ, refl, ap, sym, ◌∙◌, Bool, true, false, Option, none, some}
use queued_thread_pool.Agentpp.Synchronized.{BoostMutex}

abbrev pub plain_lock : ℕ → Option ℕ → Option (Option ℕ)
plain_lock t none = some (some t)
plain_lock t (some u) = none

abbrev pub plain_try_lock : ℕ → Option ℕ → Bool × Option ℕ
plain_try_lock t none = (true, some t)
plain_try_lock t (some u) = (false, some u)

abbrev pub plain_mutex : BoostMutex
plain_mutex = record {
  Mutex = Option ℕ;
  owner = λ m. m;
  lock = plain_lock;
  try_lock = plain_try_lock;
  unlock = λ m. none;
  taken = λ t m. some t;
  owner-taken = λ t m. refl;
  owner-unlock = λ m. refl;
  lock_free = λ t m e. ap (plain_lock t) e;
  lock_held = λ t u m e. ap (plain_lock t) e;
  try_lock_free = λ t m e. ap (plain_try_lock t) e;
  try_lock_held = λ t u m e. ap (plain_try_lock t) e ∙ ap (λ o. (false, o)) (sym e);
}
