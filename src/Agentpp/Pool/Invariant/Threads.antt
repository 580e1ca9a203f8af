-- ===== src/Agentpp/Pool/Invariant/Threads.antt =====
-- Every step of every thread of threadpool.cpp's ThreadPool keeps the invariant.
use queued_thread_pool.Prelude.{
  ℕ, ◌<◌, ◌≡◌, refl, sym, ap, true, false, Option, ◌&&◌, not, arith, is_some, if_both, After,
  After-lock,
}
use queued_thread_pool.Agentpp.Pool.State.{Manager, ManagerPc, Pool, put, wake}
use queued_thread_pool.Agentpp.Pool.Manager
use queued_thread_pool.Agentpp.Pool.Shutdown.{has_exited}
use queued_thread_pool.Agentpp.Pool.Invariant.{
  Sound, Good, working, is_waiting, is_past, replace-Sound, put-Account, finish-Account,
  leave-Account,
}

orderly :
    (m : Manager)
    → (m.monitor ≡ working m.pc)
      × (is_waiting m.pc && is_some m.task ≡ false)
      × (m.alive ≡ not (has_exited m.pc))
      × (is_past m.pc && m.go ≡ false)
    → Sound m
orderly m p = record { monitored = p.0; calm = p.1; live = p.2; told = p.3 }

module _ (m : Manager) (p : Sound m) where
  -- The thread moves on, with the mutex or without.
  shift-Sound :
      (pc' : ManagerPc)
      → working pc' ≡ working m.pc
      → is_waiting pc' ≡ false
      → has_exited pc' ≡ has_exited m.pc
      → is_past pc' && m.go ≡ false
      → Sound (record m { pc = pc' })
  shift-Sound pc' w i h t = orderly (record m { pc = pc' }) (ground (arith, p.monitored, p.live))

  -- It takes its mutex.
  acquire-Sound :
      (pc' : ManagerPc)
      → working pc' ≡ true
      → is_waiting pc' ≡ false
      → is_past pc' ≡ false
      → has_exited pc' ≡ has_exited m.pc
      → Sound (record m { monitor = true; pc = pc' })
  acquire-Sound pc' w i t h =
      orderly (record m { monitor = true; pc = pc' }) (ground (arith, p.live))

  -- Another thread wakes it, and may give it a task.
  pub wake-Sound : (o : Option ℕ) → Sound (record m { task = o; pc = wake m.pc })
  wake-Sound o =
      orderly (record m { task = o; pc = wake m.pc }) (ground (arith, p.monitored, p.live, p.told))

  pub halt-Sound : Sound (record m { go = false; pc = wake m.pc })
  halt-Sound =
      orderly (record m { go = false; pc = wake m.pc })
        (ground (arith, p.monitored, p.live, p.calm))

  pub stop-Sound : Sound (record m { go = false })
  stop-Sound = orderly (record m { go = false }) (ground (arith, p.monitored, p.live, p.calm))

  test-Sound : m.pc ≡ ManagerPc.testing → Sound (Manager.test m)
  test-Sound e =
      if_both Sound _ _ _
        (λ h. orderly (record m { pc = ManagerPc.deciding }) (ground (arith, p.monitored, p.live)))
        (λ h.
          orderly (record m { monitor = false; pc = ManagerPc.waiting }) (ground (arith, p.live)))

module _ (n : ℕ) (s : Pool) where
  -- One task manager changes, and not its task.
  pub put-Good :
      (i : ℕ) (m : Manager) → m.task ≡ (s.managers i).task → Sound m → Good n s → Good n (put s i m)
  put-Good i m e p g = record {
    order = g.order;
    sound = replace-Sound s.managers i m p g.sound;
    accounted = put-Account i m e g.accounted;
  }

  pub run-Good :
      (i : ℕ) (pc : ManagerPc)
      → i < n
      → (s.managers i).pc ≡ pc
      → Good n s
      → After (Good n) (Manager.run i s (s.managers i) pc)
  unfolding Manager.run
  run-Good i ManagerPc.starting h e g = After-lock (Good n) (s.managers i).monitor _ (λ f.
      put-Good i (record (s.managers i) { monitor = true; pc = ManagerPc.looping }) refl
        (acquire-Sound _ (g.sound i) _ refl refl refl (ap has_exited (sym e))) g)
  run-Good i ManagerPc.looping h e g =
      put-Good i _ refl
        (shift-Sound _ (g.sound i) _ (ground arith) (ground arith) (ground arith) (ground arith)) g
  run-Good i ManagerPc.testing h e g = put-Good i _ (ground arith) (test-Sound _ (g.sound i) e) g
  run-Good i ManagerPc.deciding h e g =
      put-Good i _ refl
        (shift-Sound _ (g.sound i) _ (ground arith) (ground arith) (ground arith) (ground arith)) g
  run-Good i ManagerPc.running h e g = record {
    order = g.order;
    sound =
        replace-Sound s.managers i _
          (orderly _ (ground (arith, (g.sound i).monitored, (g.sound i).live))) g.sound;
    accounted = finish-Account i _ h refl g.accounted;
  }
  run-Good i ManagerPc.notifying h e g = After-lock (Good n) (is_some s.owner) _ (λ f.
      put-Good i (record (s.managers i) { pc = ManagerPc.looping }) refl
        (shift-Sound _ (g.sound i) _ (ap working (sym e)) refl (ap has_exited (sym e)) refl) g)
  run-Good i ManagerPc.waiting h e g = tt
  run-Good i ManagerPc.woken h e g = After-lock (Good n) (s.managers i).monitor _ (λ f.
      put-Good i (record (s.managers i) { monitor = true; pc = ManagerPc.testing }) refl
        (acquire-Sound _ (g.sound i) _ refl refl refl (ap has_exited (sym e))) g)
  run-Good i ManagerPc.leaving h e g = record {
    order = g.order;
    sound =
        replace-Sound s.managers i _
          (orderly _ (ground (arith, (g.sound i).live, (g.sound i).told))) g.sound;
    accounted = leave-Account i _ h refl g.accounted;
  }
  run-Good i ManagerPc.ending h e g =
      put-Good i _ refl (orderly _ (ground (arith, (g.sound i).monitored, (g.sound i).told))) g
  run-Good i ManagerPc.exited h e g = tt

  pub stir-Good :
      (i : ℕ) (pc : ManagerPc)
      → (s.managers i).pc ≡ pc
      → Good n s
      → After (Good n) (Manager.stir i s (s.managers i) pc)
  unfolding Manager.stir
  stir-Good i ManagerPc.waiting e g =
      put-Good i _ refl
        (shift-Sound _ (g.sound i) _ (ap working (sym e)) refl (ap has_exited (sym e)) refl) g
  stir-Good i _ e g = tt
