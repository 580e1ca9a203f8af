-- ===== src/SharedMutex/System.antt =====
-- shared_mutex.cpp: the threads that execute the loops, interleaved. What the clock says and whether a
-- try_ function succeeds, when it can, is part of a step.
use queued_thread_pool.Prelude.{
  ℕ, zero, suc, ◌+◌, ◌≡◌, Bool, true, false, Option, none, some, List, [], ◌∷◌, replace,
  if◌then◌else◌,
}
use queued_thread_pool.SharedMutex.Modes.{after, UpgradeMutex}
use queued_thread_pool.SharedMutex.Loops.{
  Body, again, call, try, assert, assign, increment, Phase, reading, same_phase,
}

-- Where a thread stands.
pub data Place : Type 0 where
  testing : Place  -- at `Clock::now() < until`
  inside : Body → Place  -- before this rest of the loop's body
  ended : Place

pub record Thread : Type 0 where
  pub body : Body
  pub place : Place
  pub number : ℕ  -- `count`

-- The threads that have these loops; the others do nothing.
abbrev pub spawn : List Body → ℕ → Thread
spawn [] i = record { body = again; place = ended; number = 0 }
spawn (b ∷ l) zero = record { body = b; place = testing; number = 0 }
spawn (b ∷ l) (suc i) = spawn l i

module _ (u : UpgradeMutex) where
  open u use {Mutex, unowned, mode, change}

  pub record System : Type 0 where
    pub mutex : Mutex
    pub state : Phase
    pub failed : Bool  -- an assertion has failed
    pub threads : ℕ → Thread

  abbrev pub go_on : System → ℕ → Place → System
  go_on s i p = record s { threads = replace s.threads i (record (s.threads i) { place = p }) }

  abbrev pub owned : System → ℕ → Body → Option Mutex → Option System
  owned s i k none = none
  owned s i k (some m) = some (record (go_on s i (inside k)) { mutex = m })

  -- One step of thread `i`; `answer` is that of the clock, or of a try_ function.
  unfoldable pub run : System → ℕ → Bool → Place → Option System
  run s i answer testing = some (go_on s i (if answer then inside (s.threads i).body else ended))
  run s i answer (inside again) = some (go_on s i testing)
  run s i answer (inside (call m k)) = owned s i k (change i (after m) s.mutex)
  run s i answer (inside (try m k l)) =
      if answer then owned s i k (change i (after m) s.mutex) else some (go_on s i (inside l))
  run s i answer (inside (assert p k)) =
      some
        (record (go_on s i (inside k)) { failed = if same_phase s.state p then s.failed else true })
  run s i answer (inside (assign p k)) = some (record (go_on s i (inside k)) { state = p })
  run s i answer (inside (increment k)) = some (record s {
    threads =
        replace s.threads i
          (record (s.threads i) { place = inside k; number = (s.threads i).number + 1 });
  })
  run s i answer ended = none

  unfoldable pub step : ℕ × Bool → System → Option System
  unfolding run
  step (i, answer) s = run s i answer (s.threads i).place

  -- The threads of one group have been created.
  abbrev pub init : List Body → System
  init l = record { mutex = unowned; state = reading; failed = false; threads = spawn l }

  pub data Reach (l : List Body) : System → Type 0 where
    start : Reach l (init l)
    next : {s t : System} (a : ℕ × Bool) → Reach l s → step a s ≡ some t → Reach l t
