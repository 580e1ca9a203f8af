-- ===== src/Agentpp/Pool/Deadlock.antt =====
-- threadpool.cpp without AGENTPP_SET_TASK_USE_TRY_LOCK: `execute` holds the pool's mutex and waits in
-- `set_task` for the task manager's; the task manager, under its own mutex, waits in
-- `idle_notification` for the pool's.
use queued_thread_pool.Prelude.{
  ℕ, ◌≡◌, refl, ap, ◌∙◌, true, false, Option, none, some, List, arith, After, After-some,
  After-guarded,
}
use queued_thread_pool.Agentpp.Pool.State.{ManagerPc, Pool, ClientPc, setting, client, ShutdownPc}
use queued_thread_pool.Agentpp.Pool.Manager
use queued_thread_pool.Agentpp.Pool.Client
use queued_thread_pool.Agentpp.Pool.Shutdown
use queued_thread_pool.Agentpp.Pool.System.{
  Action, manager_runs, manager_stirs, calls, client_runs, shutdown_runs, deletes_now, step,
  run_all, Reach,
}
use queued_thread_pool.Agentpp.Pool.After.{run_all-After}
use queued_thread_pool.Agentpp.Pool.Invariant.{
  Good, inside, is_client, is_stopping, is_terminator, working,
}
use queued_thread_pool.Agentpp.Pool.Invariant.Steps.{Reach-Good, Reach-try_lock, step-Good}

module _ (c t i : ℕ) where
  -- Client `c` waits for task manager `i`, and this one for the client.
  abbrev pub Crossed : Pool → Type 0
  Crossed s =
      (s.try_lock ≡ false)
      × (s.owner ≡ some (client c))
      × (s.clients c ≡ setting t i)
      × ((s.managers i).pc ≡ ManagerPc.notifying)
      × ((s.managers i).monitor ≡ true)

  module _ (s : Pool) (d : Crossed s) where
    run-Crossed :
        (j : ℕ) (pc : ManagerPc)
        → (s.managers j).pc ≡ pc
        → After Crossed (Manager.run j s (s.managers j) pc)
    unfolding Manager.run
    run-Crossed j _ e = ground (arith, d.0, d.1, d.2, d.3, d.4)

    stir-Crossed :
        (j : ℕ) (pc : ManagerPc)
        → (s.managers j).pc ≡ pc
        → After Crossed (Manager.stir j s (s.managers j) pc)
    unfolding Manager.stir
    stir-Crossed j _ e = ground (arith, d.0, d.1, d.2, d.3, d.4)

    execute-Crossed :
        (e : ℕ) (pc : ClientPc)
        → s.clients e ≡ pc
        → inside pc ≡ is_client s.owner e
        → After Crossed (Client.execute e s pc)
    unfolding Client.execute
    execute-Crossed e _ f h = ground (arith, d.0, d.1, d.2, d.3, d.4)

    call-Crossed :
        (e : ℕ) (pc : ClientPc) (u : ℕ) → s.clients e ≡ pc → After Crossed (Client.call e s pc u)
    unfolding Client.call
    call-Crossed e _ u f = ground (arith, d.0, d.1, d.2, d.3, d.4)

    destroy-Crossed :
        (sp : ShutdownPc)
        → is_stopping sp ≡ is_terminator s.owner
        → After Crossed (Shutdown.destroy s sp)
    unfolding Shutdown.destroy
    destroy-Crossed _ f = ground (arith, d.0, d.1, d.2, d.3, d.4)

    delete-Crossed : (sp : ShutdownPc) → After Crossed (Shutdown.delete_now s sp)
    unfolding Shutdown.delete_now
    delete-Crossed _ = ground (arith, d.0, d.1, d.2, d.3, d.4)

  -- Crossed, in a state that keeps the invariant of a pool of `n` task managers.
  record Dead (n : ℕ) (s : Pool) : Type 0 where
    crossed : Crossed s
    good : Good n s

  module _ (n : ℕ) where
    step-Crossed : (a : Action) (s : Pool) → Dead n s → After Crossed (step a s)
    unfolding step
    step-Crossed (manager_runs j) s d =
        After-guarded Crossed _ _ (λ _. run-Crossed s d.crossed j (s.managers j).pc refl)
    step-Crossed (manager_stirs j) s d =
        After-guarded Crossed _ _ (λ _. stir-Crossed s d.crossed j (s.managers j).pc refl)
    step-Crossed (calls e u) s d = call-Crossed s d.crossed e (s.clients e) u refl
    step-Crossed (client_runs e) s d =
        execute-Crossed s d.crossed e (s.clients e) refl (d.good.order.held e)
    step-Crossed shutdown_runs s d = destroy-Crossed s d.crossed s.shutdown_pc d.good.order.stopped
    step-Crossed deletes_now s d = delete-Crossed s d.crossed s.shutdown_pc

    both : (r : Option Pool) → After Crossed r → After (Good n) r → After (Dead n) r
    both none p q = tt
    both (some s) p q = record { crossed = p; good = q }

    step-Dead : (a : Action) (s : Pool) → Dead n s → After (Dead n) (step a s)
    step-Dead a s d = both (step a s) (step-Crossed a s d) (step-Good n s a d.good)

-- Where `set_task` uses `Lock`: from a reachable state in which a client is about to call `set_task` on
-- a task manager that is about to call `idle_notification`, no schedule of any threads lets the client
-- or the task manager get on, and the client keeps the pool's mutex.
pub lock_deadlock :
    {n : ℕ} {s : Pool}
    → Reach false n s
    → (c t i : ℕ) → s.clients c ≡ setting t i
    → (s.managers i).pc ≡ ManagerPc.notifying
    → (schedule : List Action) (u : Pool) → run_all schedule s ≡ some u
    → (u.clients c ≡ setting t i)
      × ((u.managers i).pc ≡ ManagerPc.notifying)
      × (u.owner ≡ some (client c))
lock_deadlock {n} {s} r c t i e m schedule u f = (d.crossed.2, d.crossed.3, d.crossed.1)
  where
    g : Good n s
    g = Reach-Good r

    begun : Dead c t i n s
    begun = record {
      crossed = (
        Reach-try_lock r,
        ground (arith, g.order.held c),
        e,
        m,
        (g.sound i).monitored ∙ ap working m,
      );
      good = g;
    }

    d : Dead c t i n u
    d = After-some _ f (run_all-After (Dead c t i n) (step-Dead c t i n) schedule s begun)
