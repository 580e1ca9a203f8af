-- ===== src/Agentpp/Pool/Loss.antt =====
-- threadpool.cpp: `execute` on a pool whose task managers have left their loops.
use queued_thread_pool.Prelude.{
  ℕ, suc, ◌<◌, ◌≡◌, refl, ap, Bool, true, false, Option, none, some, List, [], ◌∷◌, ◌++◌, arith,
  is_some, ltb, ltb→lt, After, After-if, After-lock, After-some, After-guarded,
}
use queued_thread_pool.Agentpp.Pool.State
use queued_thread_pool.Agentpp.Pool.State.{
  Manager, ManagerPc, Pool, ClientPc, away, entering, scanning, setting, waiting, is_idle,
  ShutdownPc, destroyed,
}
use queued_thread_pool.Agentpp.Pool.Manager
use queued_thread_pool.Agentpp.Pool.Client
use queued_thread_pool.Agentpp.Pool.Shutdown
use queued_thread_pool.Agentpp.Pool.System.{
  Action, manager_runs, manager_stirs, calls, client_runs, shutdown_runs, deletes_now, step,
  run_all, Reach, start, init, times,
}
use queued_thread_pool.Agentpp.Pool.After.{run_all-After, run_all-Reach}
use queued_thread_pool.Agentpp.Pool.Invariant.{Sound}
use queued_thread_pool.Agentpp.Pool.Invariant.Steps.{Reach-Good}

-- `terminate` has run; the task manager's thread leaves `TaskManager::run`; before it sets its status to
-- FINISHED, a client's `execute` finds it idle; then the pool is destroyed.
schedule : ℕ → List Action
schedule t =
    times 3 shutdown_runs
    ++ (times 3 (manager_runs 0)
        ++ (calls 0 t ∷ times 3 (client_runs 0) ++ (manager_runs 0 ∷ times 3 shutdown_runs)))

abbrev left : Bool → ℕ → Pool
left v t = elim (run_all (schedule t) (init v 1)) [ none ↦ init v 1 | some s ↦ s ]

left-run : (v : Bool) (t : ℕ) → run_all (schedule t) (init v 1) ≡ some (left v t)
unfolding run_all schedule
left-run true t = refl
left-run false t = refl

-- A pool with one task manager, whichever way `set_task` locks, can be brought into a state in which it
-- is destroyed, `set_task` has accepted a task, and this task has been neither executed nor deleted.
pub lost_task :
    (v : Bool) (t : ℕ)
    → (s : Pool) × Reach v 1 s
      × (s.shutdown_pc ≡ destroyed)
      × (s.accepted ≡ t ∷ [])
      × (s.executed ≡ [])
      × (s.dropped ≡ [])
unfolding run_all schedule
lost_task true t =
    (left true t, run_all-Reach (schedule t) start (left-run true t), refl, refl, refl, refl)
lost_task false t =
    (left false t, run_all-Reach (schedule t) start (left-run false t), refl, refl, refl, refl)

abbrev pub is_setting : ClientPc → Bool
is_setting (setting t i) = true
is_setting _ = false

abbrev pub in_call : ClientPc → Bool
in_call away = false
in_call _ = true

-- Every task manager of `n` has ended, no client is about to call `set_task`, and client `c` is in
-- `execute`; `xs` are the accepted tasks.
record Over (n c : ℕ) (xs : List ℕ) (s : Pool) : Type 0 where
  size : s.size ≡ n
  gone : (i : ℕ) → i < n → ((s.managers i).alive ≡ false) × ((s.managers i).pc ≡ ManagerPc.exited)
  unset : (d : ℕ) → is_setting (s.clients d) ≡ false
  inside : in_call (s.clients c) ≡ true
  same : s.accepted ≡ xs

not_idle : (m : Manager) → m.alive ≡ false → is_idle m ≡ true → ⊥
not_idle m a k = ground arith

module _ {n c : ℕ} {xs : List ℕ} (s : Pool) (o : Over n c xs s) where
  move-Over :
      (h : Option State.Holder) (d : ℕ) (pc' : ClientPc)
      → is_setting pc' ≡ false
      → in_call pc' ≡ true
      → Over n c xs (record (State.move s d pc') { owner = h })
  move-Over h d pc' e f = record {
    size = o.size;
    gone = o.gone;
    unset = λ k. ground (arith, o.unset k, e);
    inside = ground (arith, o.inside, f);
    same = o.same;
  }

  shut-Over :
      (h : Option State.Holder) (sp : ShutdownPc)
      → Over n c xs (record s { owner = h; shutdown_pc = sp })
  shut-Over h sp = record {
    size = o.size;
    gone = o.gone;
    unset = o.unset;
    inside = o.inside;
    same = o.same;
  }

  put-Over :
      (i : ℕ) (m : Manager) (sp : ShutdownPc)
      → (i < n → (m.alive ≡ false) × (m.pc ≡ ManagerPc.exited))
      → Over n c xs (record (State.put s i m) { shutdown_pc = sp })
  put-Over i m sp e = record {
    size = o.size;
    gone = λ j h. ground (arith, o.gone j h, e);
    unset = o.unset;
    inside = o.inside;
    same = o.same;
  }

  execute-Over :
      (d : ℕ) (pc : ClientPc)
      → s.clients d ≡ pc
      → is_setting pc ≡ false
      → After (Over n c xs) (Client.execute d s pc)
  unfolding Client.execute
  execute-Over d away e f = tt
  execute-Over d (entering t) e f =
      After-lock (Over n c xs) (is_some s.owner) _
        (λ _. move-Over (some (State.client d)) d (scanning t 0) refl refl)
  execute-Over d (scanning t i) e f =
      After-if (Over n c xs) (ltb i s.size) _ _
        (λ h.
          After-if (Over n c xs) (is_idle (s.managers i)) _ _
            (λ k.
              absurd
                (not_idle (s.managers i) (o.gone i (omega (arith, o.size, ltb→lt i s.size h))).0 k))
            (λ _. move-Over s.owner d (scanning t (suc i)) refl refl))
        (λ _. move-Over none d (waiting t) refl refl)
  execute-Over d (setting t i) e f = cc
  execute-Over d (waiting t) e f =
      After-lock (Over n c xs) (is_some s.owner) _
        (λ _. move-Over (some (State.client d)) d (scanning t 0) refl refl)

  call-Over : (d : ℕ) (pc : ClientPc) (t : ℕ) → After (Over n c xs) (Client.call d s pc t)
  unfolding Client.call
  call-Over d away t = move-Over s.owner d (entering t) refl refl
  call-Over d _ t = tt

  destroy-Over : (sp : ShutdownPc) → After (Over n c xs) (Shutdown.destroy s sp)
  unfolding Shutdown.destroy
  destroy-Over State.serving =
      After-lock (Over n c xs) (is_some s.owner) _
        (λ _. shut-Over (some State.terminator) (State.stopping 0))
  destroy-Over (State.stopping i) =
      After-if (Over n c xs) (ltb i s.size) _ _
        (λ _. put-Over i (Shutdown.stop (s.managers i)) (State.stopping (suc i)) (o.gone i))
        (λ _. shut-Over none (State.deleting 0))
  destroy-Over (State.deleting i) =
      After-if (Over n c xs) (ltb i s.size) _ _
        (λ _. After-lock (Over n c xs) (s.managers i).monitor _ (λ _.
          put-Over i (record (s.managers i) { go = false; pc = State.wake (s.managers i).pc })
            (State.joining i) (λ h. let p = o.gone i h in (p.0, ap State.wake p.1))))
        (λ _. shut-Over s.owner destroyed)
  destroy-Over (State.joining i) =
      After-if (Over n c xs) (Shutdown.has_exited (s.managers i).pc) _ _
        (λ _. shut-Over s.owner (State.deleting (suc i))) (λ _. tt)
  destroy-Over destroyed = tt

  delete-Over : (sp : ShutdownPc) → After (Over n c xs) (Shutdown.delete_now s sp)
  unfolding Shutdown.delete_now
  delete-Over State.serving = shut-Over s.owner (State.deleting 0)
  delete-Over _ = tt

  ended : (i : ℕ) → ltb i s.size ≡ true → (s.managers i).pc ≡ ManagerPc.exited
  ended i h = (o.gone i (omega (arith, o.size, ltb→lt i s.size h))).1

step-Over :
    {n c : ℕ} {xs : List ℕ} (a : Action) (s : Pool) → Over n c xs s → After (Over n c xs) (step a s)
unfolding step Manager.run Manager.stir
step-Over {n} {c} {xs} (manager_runs i) s o =
    After-guarded (Over n c xs) _ _ (λ h. rw (ended s o i h) tt)
step-Over {n} {c} {xs} (manager_stirs i) s o =
    After-guarded (Over n c xs) _ _ (λ h. rw (ended s o i h) tt)
step-Over (calls d t) s o = call-Over s o d (s.clients d) t
step-Over (client_runs d) s o = execute-Over s o d (s.clients d) refl (o.unset d)
step-Over shutdown_runs s o = destroy-Over s o s.shutdown_pc
step-Over deletes_now s o = delete-Over s o s.shutdown_pc

exited_of : (m : Manager) → Sound m → m.alive ≡ false → m.pc ≡ ManagerPc.exited
exited_of m p h = ground (arith, p.live)

-- From a reachable state in which the threads of all `n` task managers have ended and no client is about
-- to call `set_task`: in no schedule of any threads does a client that is in `execute` return, and no
-- task is accepted.
pub execute_never_returns :
    {v : Bool} {n : ℕ} {s : Pool}
    → Reach v n s
    → ((i : ℕ) → i < n → (s.managers i).alive ≡ false)
    → ((d : ℕ) → is_setting (s.clients d) ≡ false)
    → (c : ℕ) → in_call (s.clients c) ≡ true
    → (schedule : List Action) (u : Pool) → run_all schedule s ≡ some u
    → (in_call (u.clients c) ≡ true) × (u.accepted ≡ s.accepted)
execute_never_returns {n} {s} r gone unset c h plan u f = (o.inside, o.same)
  where
    begun : Over n c s.accepted s
    begun = record {
      size = (Reach-Good r).accounted.full;
      gone = λ i k. (gone i k, exited_of (s.managers i) ((Reach-Good r).sound i) (gone i k));
      unset = unset;
      inside = h;
      same = refl;
    }

    o : Over n c s.accepted u
    o = After-some _ f (run_all-After (Over n c s.accepted) step-Over plan s begun)
