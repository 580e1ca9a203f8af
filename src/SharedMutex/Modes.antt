-- ===== src/SharedMutex/Modes.antt =====
-- shared_mutex.cpp: what the loops use of boost::shared_mutex and boost::upgrade_mutex.
pub mod Plain
use queued_thread_pool.Prelude.{ℕ, ◌≡◌, ◌≢◌, Bool, true, false, Option, some, replace, ◌&&◌}

-- How a thread owns the mutex.
pub data Mode : Type 0 where
  free shared upgrade exclusive : Mode

-- Whether two threads can own the mutex so at the same time
unfoldable pub together : Mode → Mode → Bool
together free m = true
together shared exclusive = false
together shared _ = true
together upgrade exclusive = false
together upgrade upgrade = false
together upgrade _ = true
together exclusive free = true
together exclusive _ = false

-- The member functions; a try_ function, which can fail, has the name without it.
pub data Move : Type 0 where
  lock_shared unlock_shared lock unlock lock_upgrade unlock_upgrade : Move
  unlock_upgrade_and_lock unlock_and_lock_upgrade unlock_and_lock_shared : Move
  unlock_upgrade_and_lock_shared unlock_shared_and_lock unlock_shared_and_lock_upgrade : Move

-- The ownership that a function requires
abbrev pub before : Move → Mode
before lock_shared = free
before unlock_shared = shared
before lock = free
before unlock = exclusive
before lock_upgrade = free
before unlock_upgrade = upgrade
before unlock_upgrade_and_lock = upgrade
before unlock_and_lock_upgrade = exclusive
before unlock_and_lock_shared = exclusive
before unlock_upgrade_and_lock_shared = upgrade
before unlock_shared_and_lock = shared
before unlock_shared_and_lock_upgrade = shared

-- The ownership that it gives
abbrev pub after : Move → Mode
after lock_shared = shared
after unlock_shared = free
after lock = exclusive
after unlock = free
after lock_upgrade = upgrade
after unlock_upgrade = free
after unlock_upgrade_and_lock = exclusive
after unlock_and_lock_upgrade = upgrade
after unlock_and_lock_shared = shared
after unlock_upgrade_and_lock_shared = shared
after unlock_shared_and_lock = exclusive
after unlock_shared_and_lock_upgrade = upgrade

-- A boost::upgrade_mutex, as Boost documents it: a thread's ownership changes, while it is able to
-- share the mutex with all others; otherwise a call waits, and a try_ function fails.
pub record UpgradeMutex : Type 1 where
  pub Mutex : Type 0
  pub unowned : Mutex
  pub mode : Mutex → ℕ → Mode
  pub change : ℕ → Mode → Mutex → Option Mutex
  pub mode-unowned : (i : ℕ) → mode unowned i ≡ free
  pub mode-change :
      (i : ℕ) (new : Mode) (m m' : Mutex)
      → change i new m ≡ some m'
      → (j : ℕ) → mode m' j ≡ replace (mode m) i new j
  pub together-change :
      (i : ℕ) (new : Mode) (m m' : Mutex)
      → change i new m ≡ some m'
      → (j : ℕ) → j ≢ i
      → together new (mode m j) ≡ true
