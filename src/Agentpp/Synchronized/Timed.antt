-- ===== src/Agentpp/Synchronized/Timed.antt =====
-- threadpool.cpp: `Synchronized::lock(unsigned long timeout)`, which tries every ten milliseconds. Between
-- two attempts other threads use the object: `at k` is what they have made of it before attempt `k`.
use queued_thread_pool.Prelude.{
  ℕ, zero, suc, ◌+◌, ◌-◌, ◌/◌, ◌<◌, ◌≡◌, refl, sym, ap, ◌∙◌, false, Option, none, some, is_some,
  leb, inl, inr, Option-cases, Bool-cases, arith, if◌then◌else◌,
}
use queued_thread_pool.Agentpp.Synchronized.{BoostMutex, Synchronized, is_locked_by, Tracked}

module _ (p : BoostMutex) (t : ℕ) (at : ℕ → Synchronized p) where
  open p use {Mutex, owner, taken, try_lock, try_lock_free, try_lock_held}

  -- How thread `t`'s call ends: with true, and the object as it then is; with false, and the object as
  -- the others have left it; or at the BOOST_ASSERT.
  pub data Ending : Type 0 where
    acquires : Synchronized p → Ending
    fails asserts : Ending

  -- After the loop: the mutex `m` has been taken.
  abbrev entered : Synchronized p → Mutex → Ending
  entered s m =
      if is_locked_by p t s.tid then asserts else acquires (record { mutex = m; tid = some t })

  -- The loop, with `d` milliseconds left, before its attempt `k`. `none`: out of fuel
  attempt : ℕ → ℕ → ℕ → Option Ending
  attempt zero d k = none
  attempt (suc fuel) d k =
      let rest = attempt fuel (d - 10) (suc k) in
      let r = try_lock t (at k).mutex in
      if r.0 then some (entered (at k) r.1) else if leb d 10 then some fails else rest

  -- `lock(timeout)`
  unfoldable pub lock_for : ℕ → Option Ending
  unfolding attempt
  lock_for timeout = attempt (suc timeout) timeout 0

  -- What the first of the `n` attempts from `k` on that finds the mutex free makes of it.
  pub first_free : ℕ → ℕ → Ending
  first_free k zero = fails
  first_free k (suc n) =
      let rest = first_free (suc k) n in
      if is_some (owner (at k).mutex)
      then rest
      else acquires (record { mutex = taken t (at k).mutex; tid = some t })

  -- One attempt for each ten milliseconds begun, and at least one.
  abbrev pub attempts : ℕ → ℕ
  attempts d = if leb d 10 then 1 else (d + 9) / 10

  attempts-step : (d : ℕ) → leb d 10 ≡ false → attempts d ≡ suc (attempts (d - 10))
  attempts-step d h = ground arith

  module _ (tracked : (k : ℕ) → Tracked p (at k)) where
    entered_lem :
        (k : ℕ)
        → owner (at k).mutex ≡ none
        → (m : Mutex) → entered (at k) m ≡ acquires (record { mutex = m; tid = some t })
    entered_lem k e m = rw (sym (tracked k) ∙ e) refl

    attempt_lem : (fuel d k : ℕ) → d < fuel → attempt fuel d k ≡ some (first_free k (attempts d))
    unfolding attempt first_free
    attempt_lem zero d k h = absurd (omega arith)
    attempt_lem (suc fuel) d k h = elim (Option-cases (owner (at k).mutex)) [
      | inl e ↦ elim (Bool-cases (leb d 10)) [
        | inl l ↦ rw (l, e, try_lock_free t (at k).mutex e) (ap some (entered_lem k e _))
        | inr l ↦
            rw (attempts-step d l, l, e, try_lock_free t (at k).mutex e)
              (ap some (entered_lem k e _))
      ]
      | inr (u, e) ↦ elim (Bool-cases (leb d 10)) [
        | inl l ↦ rw (l, e, try_lock_held t u (at k).mutex e) refl
        | inr l ↦
            rw (attempts-step d l, l, e, try_lock_held t u (at k).mutex e)
              (attempt_lem fuel (d - 10) (suc k) (ground arith))
      ]
    ]

    -- Over every boost::mutex that keeps the documented laws, and whatever other threads make of the object
    -- between two attempts, while `tid_` is the holder of its mutex: `lock` with a timeout ends, never
    -- at its assertion. It makes an attempt for each ten milliseconds begun, and at least one; the
    -- first that finds the mutex free, if there is one, takes it and sets `tid_` to the caller, and
    -- else the call fails. So it fails for a caller that holds the lock, where the header says that
    -- it succeeds.
    pub lock_for_lem : (timeout : ℕ) → lock_for timeout ≡ some (first_free 0 (attempts timeout))
    unfolding lock_for
    lock_for_lem timeout = attempt_lem (suc timeout) timeout 0 (omega arith)

    -- Where the caller holds the lock at every attempt
    fails_for_owner : ((k : ℕ) → owner (at k).mutex ≡ some t) → (k n : ℕ) → first_free k n ≡ fails
    unfolding first_free
    fails_for_owner h k zero = refl
    fails_for_owner h k (suc n) = rw (h k) (fails_for_owner h (suc k) n)

    -- A caller that holds the lock before the call, and so, since nobody else can free it, at every attempt:
    -- the call fails.
    pub lock_for-owner :
        ((k : ℕ) → owner (at k).mutex ≡ some t) → (timeout : ℕ) → lock_for timeout ≡ some fails
    lock_for-owner h timeout =
        lock_for_lem timeout ∙ ap some (fails_for_owner h 0 (attempts timeout))
