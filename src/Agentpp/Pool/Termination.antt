-- ===== src/Agentpp/Pool/Termination.antt =====
-- The end of the ThreadPool of threadpool.cpp: what the destruction of its task managers achieves.
use queued_thread_pool.Prelude.{
  ℕ, ◌<◌, ◌≡◌, refl, Bool, false, ◌&&◌, not, ltb, arith, After, After-some, After-guarded,
}
use queued_thread_pool.Agentpp.Pool.State.{
  Manager, ManagerPc, Pool, ClientPc, ShutdownPc, deleting, joining, destroyed,
}
use queued_thread_pool.Agentpp.Pool.Manager
use queued_thread_pool.Agentpp.Pool.Client
use queued_thread_pool.Agentpp.Pool.Shutdown
use queued_thread_pool.Agentpp.Pool.Shutdown.{has_exited}
use queued_thread_pool.Agentpp.Pool.System.{
  Action, manager_runs, manager_stirs, calls, client_runs, shutdown_runs, deletes_now, step, Reach,
  start, next,
}
use queued_thread_pool.Agentpp.Pool.Invariant.{Good}
use queued_thread_pool.Agentpp.Pool.Invariant.Steps.{Reach-Good}

-- How many of the task managers have been joined.
abbrev joined_count : ℕ → ShutdownPc → ℕ
joined_count n (deleting i) = i
joined_count n (joining i) = i
joined_count n destroyed = n
joined_count n _ = 0

-- If task manager `i` has been joined, its thread has ended.
abbrev Joined : ℕ → Pool → Type 0
Joined i s = ltb i (joined_count s.size s.shutdown_pc) && not (has_exited (s.managers i).pc) ≡ false

module _ (i : ℕ) (s : Pool) (h : Joined i s) where
  run-Joined :
      (j : ℕ) (pc : ManagerPc)
      → (s.managers j).pc ≡ pc
      → After (Joined i) (Manager.run j s (s.managers j) pc)
  unfolding Manager.run
  run-Joined j _ e = ground (arith, h)

  stir-Joined :
      (j : ℕ) (pc : ManagerPc)
      → (s.managers j).pc ≡ pc
      → After (Joined i) (Manager.stir j s (s.managers j) pc)
  unfolding Manager.stir
  stir-Joined j _ e = ground (arith, h)

  execute-Joined : (c : ℕ) (pc : ClientPc) → After (Joined i) (Client.execute c s pc)
  unfolding Client.execute
  execute-Joined c _ = ground (arith, h)

  call-Joined : (c : ℕ) (pc : ClientPc) (t : ℕ) → After (Joined i) (Client.call c s pc t)
  unfolding Client.call
  call-Joined c _ t = ground (arith, h)

  destroy-Joined : (sp : ShutdownPc) → s.shutdown_pc ≡ sp → After (Joined i) (Shutdown.destroy s sp)
  unfolding Shutdown.destroy
  destroy-Joined _ e = ground (arith, h)

  delete-Joined :
      (sp : ShutdownPc) → s.shutdown_pc ≡ sp → After (Joined i) (Shutdown.delete_now s sp)
  unfolding Shutdown.delete_now
  delete-Joined _ e = ground (arith, h)

step-Joined : (i : ℕ) (s : Pool) (a : Action) → Joined i s → After (Joined i) (step a s)
unfolding step
step-Joined i s (manager_runs j) h =
    After-guarded (Joined i) _ _ (λ _. run-Joined i s h j (s.managers j).pc refl)
step-Joined i s (manager_stirs j) h =
    After-guarded (Joined i) _ _ (λ _. stir-Joined i s h j (s.managers j).pc refl)
step-Joined i s (calls c t) h = call-Joined i s h c (s.clients c) t
step-Joined i s (client_runs c) h = execute-Joined i s h c (s.clients c)
step-Joined i s shutdown_runs h = destroy-Joined i s h s.shutdown_pc refl
step-Joined i s deletes_now h = delete-Joined i s h s.shutdown_pc refl

Reach-Joined : {v : Bool} {n : ℕ} {s : Pool} (i : ℕ) → Reach v n s → Joined i s
Reach-Joined i start = ground arith
Reach-Joined i (next {s} a r e) = After-some (Joined i) e (step-Joined i s a (Reach-Joined i r))

exited_of : (m : Manager) → not (has_exited m.pc) ≡ false → m.pc ≡ ManagerPc.exited
exited_of m h = ground arith

-- When the task managers have been destroyed, with `terminate` before or without, the thread of each of
-- the `n` task managers has ended, its status is not RUNNING, and it does not hold its mutex.
pub pool_threads_end :
    {v : Bool} {n : ℕ} {s : Pool}
    → Reach v n s
    → s.shutdown_pc ≡ destroyed
    → (i : ℕ) → i < n
    → ((s.managers i).pc ≡ ManagerPc.exited)
      × ((s.managers i).alive ≡ false)
      × ((s.managers i).monitor ≡ false)
pool_threads_end {n} {s} r e i h =
    (x, ground (arith, (g.sound i).live, x), ground (arith, (g.sound i).monitored, x))
  where
    g : Good n s
    g = Reach-Good r

    x : (s.managers i).pc ≡ ManagerPc.exited
    x = exited_of (s.managers i) (ground (arith, Reach-Joined i r, g.accounted.full, e, h))
