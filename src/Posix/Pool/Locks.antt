-- ===== src/Posix/Pool/Locks.antt =====
-- Who holds which mutex of posix/threadpool.cpp, by where the threads stand.
pub mod Threads
use queued_thread_pool.Prelude.{
  ℕ, suc, ◌≡◌, refl, sym, ap, ◌∙◌, Bool, true, false, Option, none, some, ◌&&◌, arith, is_some,
  if◌then◌else◌, if_both, replace, ◌++◌, ◌∷◌, [],
}
use queued_thread_pool.Posix.Pool.State.{
  Worker, WorkerPc, System, DispatcherPc, starting, outer, inner, scanning, setting, popping,
  parking, idling, asleep, roused, again, done, ShutdownPc, serving, stopping, deleting, joining,
  clearing, joining_dispatcher, emptying, destroyed, Party, dispatcher, shutdown, rouse, wake,
  execute_locked, put,
}
use queued_thread_pool.Posix.Pool.Worker
use queued_thread_pool.Posix.Pool.System.{init}
use queued_thread_pool.Posix.Pool.After.{After, After-lock}

-- The dispatcher is between `Lock l(thread)` and the lock's end, and not in a wait.
abbrev pub dispatching : DispatcherPc → Bool
dispatching starting = false
dispatching (asleep o) = false
dispatching (roused o) = false
dispatching done = false
dispatching _ = true

-- The destroying thread is inside `QueuedThreadPool::terminate`.
abbrev pub terminating : ShutdownPc → Bool
terminating (stopping i) = true
terminating (deleting i) = true
terminating (joining i) = true
terminating clearing = true
terminating _ = false

-- A task manager's thread is inside the lock of `TaskManager::run`, and not in its wait.
abbrev pub working : WorkerPc → Bool
working WorkerPc.looping = true
working WorkerPc.running = true
working (WorkerPc.calling u) = true
working WorkerPc.notifying = true
working WorkerPc.checking = true
working WorkerPc.leaving = true
working _ = false

abbrev pub is_serving : ShutdownPc → Bool
is_serving serving = true
is_serving _ = false

abbrev pub holder : DispatcherPc → ShutdownPc → Option Party
holder d s =
    if dispatching d then some dispatcher else if terminating s then some shutdown else none

-- The dispatcher acts on a task only while the pool is going.
abbrev pub assigning : DispatcherPc → Bool
assigning (scanning t i) = true
assigning (setting t i) = true
assigning popping = true
assigning _ = false

pub record Lock (owner : Option Party) (go : Bool) (ws : ℕ → Worker) (d : DispatcherPc)
    (sp : ShutdownPc) : Type 0 where
  pub owned : owner ≡ holder d sp
  pub apart : dispatching d && terminating sp ≡ false
  pub monitored : (i : ℕ) → (ws i).monitor ≡ working (ws i).pc
  pub going : go ≡ is_serving sp
  pub active : assigning d ≡ true → go ≡ true

pub record Locks (s : System) : Type 0 where
  pub held : Lock s.owner s.go s.workers s.dispatcher_pc s.shutdown_pc

dispatching-rouse : (d : DispatcherPc) → dispatching (rouse d) ≡ dispatching d
dispatching-rouse (asleep o) = refl
dispatching-rouse _ = refl

assigning-rouse : (d : DispatcherPc) → assigning (rouse d) ≡ assigning d
assigning-rouse (asleep o) = refl
assigning-rouse _ = refl

assigning-dispatching : (d : DispatcherPc) → assigning d ≡ true → dispatching d ≡ true
assigning-dispatching (scanning t i) e = refl
assigning-dispatching (setting t i) e = refl
assigning-dispatching popping e = refl
assigning-dispatching _ e = cc

working-wake : (p : WorkerPc) → working (wake p) ≡ working p
working-wake WorkerPc.waiting = refl
working-wake _ = refl

module _ {o : Option Party} {go : Bool} {ws : ℕ → Worker} {d : DispatcherPc} {sp : ShutdownPc} where
  rouse-Lock : Lock o go ws d sp → Lock o go ws (rouse d) sp
  rouse-Lock l = record {
    owned = rw (dispatching-rouse d) l.owned;
    apart = rw (dispatching-rouse d) l.apart;
    monitored = l.monitored;
    going = l.going;
    active = λ h. l.active (sym (assigning-rouse d) ∙ h);
  }

  put-Lock :
      (i : ℕ) (w : Worker)
      → w.monitor ≡ working w.pc
      → Lock o go ws d sp
      → Lock o go (replace ws i w) d sp
  put-Lock i w h l = record {
    owned = l.owned;
    apart = l.apart;
    monitored = λ j. ground (arith, l.monitored j);
    going = l.going;
    active = l.active;
  }

  -- The dispatcher moves on within the lock.
  move-Lock :
      (d' : DispatcherPc)
      → dispatching d' ≡ dispatching d
      → (assigning d' ≡ true → go ≡ true)
      → Lock o go ws d sp
      → Lock o go ws d' sp
  move-Lock d' e h l = record {
    owned = rw e l.owned;
    apart = rw e l.apart;
    monitored = l.monitored;
    going = l.going;
    active = h;
  }

  -- The dispatcher takes the mutex of `thread` while nobody holds it.
  take-Lock :
      (d' : DispatcherPc)
      → is_some o ≡ false
      → dispatching d' ≡ true
      → assigning d' ≡ false
      → Lock o go ws d sp
      → Lock (some dispatcher) go ws d' sp
  take-Lock d' free e h l = record {
    owned = rw e refl;
    apart = ground (arith, l.owned, e);
    monitored = l.monitored;
    going = l.going;
    active = λ x. cc;
  }

  -- The dispatcher gives it back.
  give-Lock :
      (d' : DispatcherPc)
      → dispatching d ≡ true
      → dispatching d' ≡ false
      → assigning d' ≡ false
      → Lock o go ws d sp
      → Lock none go ws d' sp
  give-Lock d' e e' h l = record {
    owned = ground (arith, l.apart, e, e');
    apart = rw e' refl;
    monitored = l.monitored;
    going = l.going;
    active = λ x. cc;
  }

  -- The destroying thread moves on, inside `terminate` or outside it.
  shift-Lock :
      (sp' : ShutdownPc)
      → terminating sp' ≡ terminating sp
      → is_serving sp' ≡ is_serving sp
      → Lock o go ws d sp
      → Lock o go ws d sp'
  shift-Lock sp' e h l = record {
    owned = rw e l.owned;
    apart = rw e l.apart;
    monitored = l.monitored;
    going = rw h l.going;
    active = l.active;
  }

execute_locked-Locks : (s : System) (u : ℕ) → Locks s → Locks (execute_locked s u)
unfolding execute_locked
execute_locked-Locks s u l =
    if_both Locks s.go _ _ (λ _. record { held = rouse-Lock l.held })
      (λ _. record { held = l.held })

init-Locks : (n : ℕ) (started : ℕ → Bool) → Locks (init n started)
init-Locks n started = record {
  held = record {
    owned = refl;
    apart = refl;
    monitored = λ i. ground arith;
    going = refl;
    active = λ h. cc;
  };
}
