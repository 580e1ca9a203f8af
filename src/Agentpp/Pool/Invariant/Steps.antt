-- ===== src/Agentpp/Pool/Invariant/Steps.antt =====
-- The clients' and the terminating thread's steps keep the invariant, so every reachable state has it.
use queued_thread_pool.Prelude.{
  ℕ, suc, ◌<◌, ◌≡◌, refl, sym, ap, ◌∙◌, Bool, true, false, Option, none, some, ◌||◌, ltb, ltb→lt,
  arith, is_some, After, After-if, After-lock, After-guarded, After-some, replace,
}
use queued_thread_pool.Agentpp.Pool.State.{
  Manager, Pool, ClientPc, away, entering, scanning, setting, waiting, ShutdownPc, serving,
  stopping, deleting, joining, destroyed, Holder, client, put, move, is_idle,
}
use queued_thread_pool.Agentpp.Pool.Manager
use queued_thread_pool.Agentpp.Pool.Client
use queued_thread_pool.Agentpp.Pool.Shutdown
use queued_thread_pool.Agentpp.Pool.Shutdown.{has_exited}
use queued_thread_pool.Agentpp.Pool.System.{
  Action, manager_runs, manager_stirs, calls, client_runs, shutdown_runs, deletes_now, step, Reach,
  start, next,
}
use queued_thread_pool.Agentpp.Pool.Invariant.{
  Order, Sound, Good, inside, target, is_stopping, init-Good, replace-Sound, put-Account,
  take-Account,
}
use queued_thread_pool.Agentpp.Pool.Invariant.Threads.{
  wake-Sound, halt-Sound, stop-Sound, run-Good, stir-Good,
}

module _ {n : ℕ} {o : Option Holder} {cs : ℕ → ClientPc} {sp : ShutdownPc} where
  -- A client moves on, inside the lock or outside it.
  move-Order :
      (c : ℕ) (pc' : ClientPc)
      → inside pc' ≡ inside (cs c)
      → ((i : ℕ) → target pc' ≡ some i → i < n)
      → Order n o cs sp
      → Order n o (replace cs c pc') sp
  move-Order c pc' e h r = record {
    held = λ d. ground (arith, r.held d);
    stopped = r.stopped;
    aimed = λ d i. ground (arith, r.aimed d i, h i);
  }

  -- A client takes the pool's mutex while nobody holds it.
  begin-Order :
      (c t : ℕ)
      → is_some o ≡ false
      → Order n o cs sp
      → Order n (some (client c)) (replace cs c (scanning t 0)) sp
  begin-Order c t e r = record {
    held = λ d. ground (arith, r.held d);
    stopped = ground (arith, r.stopped);
    aimed = λ d i. ground (arith, r.aimed d i);
  }

  -- A client gives it back.
  leave-Order :
      (c : ℕ) (pc' : ClientPc)
      → inside (cs c) ≡ true
      → inside pc' ≡ false
      → target pc' ≡ none
      → Order n o cs sp
      → Order n none (replace cs c pc') sp
  leave-Order c pc' e e' h r = record {
    held = λ d. ground (arith, r.held c, r.held d);
    stopped = ground (arith, r.held c, r.stopped);
    aimed = λ d i. ground (arith, r.aimed d i);
  }

module _ (n : ℕ) (s : Pool) where
  move-Good :
      (c : ℕ) (pc' : ClientPc)
      → inside pc' ≡ inside (s.clients c)
      → ((i : ℕ) → target pc' ≡ some i → i < n)
      → Good n s
      → Good n (move s c pc')
  move-Good c pc' e h g = record {
    order = move-Order c pc' e h g.order;
    sound = g.sound;
    accounted = g.accounted;
  }

  begin-Good : (c t : ℕ) → Good n s → After (Good n) (Client.begin s c t)
  begin-Good c t g =
      After-lock (Good n) (is_some s.owner) _ (λ e. record {
        order = begin-Order c t e g.order;
        sound = g.sound;
        accounted = g.accounted;
      })

  scan-Good :
      (c t i : ℕ)
      → inside (s.clients c) ≡ true
      → Good n s
      → After (Good n) (Client.scan s c t i (s.managers i))
  scan-Good c t i e g =
      After-if (Good n) (ltb i s.size) _ _
        (λ h.
          After-if (Good n) (is_idle (s.managers i)) _ _
            (λ _.
              move-Good c (setting t i) (sym e)
                (λ j k. ground (arith, ltb→lt i s.size h, g.accounted.full)) g)
            (λ _. move-Good c (scanning t (suc i)) (sym e) (λ j k. cc) g))
        (λ _. record {
          order = leave-Order c (waiting t) e refl refl g.order;
          sound = g.sound;
          accounted = g.accounted;
        })

  take-Good :
      (c t i : ℕ)
      → s.clients c ≡ setting t i
      → is_some (s.managers i).task ≡ false
      → Good n s
      → Good n (Client.take s c t i (s.managers i))
  take-Good c t i e h g = record {
    order = leave-Order c away (ap inside e) refl refl g.order;
    sound = replace-Sound s.managers i _ (wake-Sound (s.managers i) (g.sound i) (some t)) g.sound;
    accounted = take-Account i t _ (g.order.aimed c i (ap target e)) h refl g.accounted;
  }

  pass-Good : (c t i : ℕ) → inside (s.clients c) ≡ true → Good n s → Good n (Client.pass s c t i)
  pass-Good c t i e g = move-Good c (scanning t (suc i)) (sym e) (λ j k. cc) g

  set-Good :
      (c t i : ℕ)
      → s.clients c ≡ setting t i
      → Good n s
      → After (Good n) (Client.set_task s c t i (s.managers i))
  set-Good c t i e g =
      After-if (Good n) s.try_lock _ _
        (λ _.
          After-if (Good n) (is_some (s.managers i).task || (s.managers i).monitor) _ _
            (λ _. pass-Good c t i (ap inside e) g) (λ h. take-Good c t i e (ground arith) g))
        (λ _.
          After-if (Good n) (s.managers i).monitor _ _ (λ _. tt)
            (λ _.
              After-if (Good n) (is_some (s.managers i).task) _ _
                (λ _. pass-Good c t i (ap inside e) g) (λ h. take-Good c t i e h g)))

  execute-Good :
      (c : ℕ) (pc : ClientPc) → s.clients c ≡ pc → Good n s → After (Good n) (Client.execute c s pc)
  unfolding Client.execute
  execute-Good c away e g = tt
  execute-Good c (entering t) e g = begin-Good c t g
  execute-Good c (scanning t i) e g = scan-Good c t i (ap inside e) g
  execute-Good c (setting t i) e g = set-Good c t i e g
  execute-Good c (waiting t) e g = begin-Good c t g

  call-Good :
      (c : ℕ) (pc : ClientPc) (t : ℕ)
      → s.clients c ≡ pc
      → Good n s
      → After (Good n) (Client.call c s pc t)
  unfolding Client.call
  call-Good c away t e g = move-Good c (entering t) (ap inside (sym e)) (λ j k. cc) g
  call-Good c _ t e g = tt

  -- The terminating thread moves on, inside the lock or outside it.
  shift-Good :
      (sp' : ShutdownPc)
      → is_stopping sp' ≡ is_stopping s.shutdown_pc
      → Good n s
      → Good n (record s { shutdown_pc = sp' })
  shift-Good sp' e g = record {
    order = record { held = g.order.held; stopped = e ∙ g.order.stopped; aimed = g.order.aimed };
    sound = g.sound;
    accounted = g.accounted;
  }

  put_shift-Good :
      (i : ℕ) (m : Manager) (sp' : ShutdownPc)
      → m.task ≡ (s.managers i).task
      → Sound m
      → is_stopping sp' ≡ is_stopping s.shutdown_pc
      → Good n s
      → Good n (record (put s i m) { shutdown_pc = sp' })
  put_shift-Good i m sp' e p h g = record {
    order = record { held = g.order.held; stopped = h ∙ g.order.stopped; aimed = g.order.aimed };
    sound = replace-Sound s.managers i m p g.sound;
    accounted = put-Account i m e g.accounted;
  }

  destroy-Good :
      (sp : ShutdownPc) → s.shutdown_pc ≡ sp → Good n s → After (Good n) (Shutdown.destroy s sp)
  unfolding Shutdown.destroy
  destroy-Good serving e g = After-lock (Good n) (is_some s.owner) _ (λ f. record {
    order = record {
      held = λ c. ground (arith, g.order.held c);
      stopped = refl;
      aimed = g.order.aimed;
    };
    sound = g.sound;
    accounted = g.accounted;
  })
  destroy-Good (stopping i) e g =
      After-if (Good n) (ltb i s.size) _ _
        (λ _.
          put_shift-Good i (Shutdown.stop (s.managers i)) (stopping (suc i)) refl
            (stop-Sound (s.managers i) (g.sound i)) (ap is_stopping (sym e)) g)
        (λ _. record {
          order = record {
            held = λ c. ground (arith, g.order.held c, g.order.stopped);
            stopped = refl;
            aimed = g.order.aimed;
          };
          sound = g.sound;
          accounted = g.accounted;
        })
  destroy-Good (deleting i) e g =
      After-if (Good n) (ltb i s.size) _ _
        (λ _. After-lock (Good n) (s.managers i).monitor _ (λ _.
          put_shift-Good i _ (joining i) refl (halt-Sound (s.managers i) (g.sound i))
            (ap is_stopping (sym e)) g))
        (λ _. shift-Good destroyed (ap is_stopping (sym e)) g)
  destroy-Good (joining i) e g =
      After-if (Good n) (has_exited (s.managers i).pc) _ _
        (λ _. shift-Good (deleting (suc i)) (ap is_stopping (sym e)) g) (λ _. tt)
  destroy-Good destroyed e g = tt

  delete-Good :
      (sp : ShutdownPc) → s.shutdown_pc ≡ sp → Good n s → After (Good n) (Shutdown.delete_now s sp)
  unfolding Shutdown.delete_now
  delete-Good serving e g = shift-Good (deleting 0) (ap is_stopping (sym e)) g
  delete-Good _ e g = tt

  pub step-Good : (a : Action) → Good n s → After (Good n) (step a s)
  unfolding step
  step-Good (manager_runs i) g = After-guarded (Good n) _ _ (λ e.
      run-Good n s i (s.managers i).pc (omega (arith, ltb→lt i s.size e, g.accounted.full)) refl g)
  step-Good (manager_stirs i) g =
      After-guarded (Good n) _ _ (λ _. stir-Good n s i (s.managers i).pc refl g)
  step-Good (calls c t) g = call-Good c (s.clients c) t refl g
  step-Good (client_runs c) g = execute-Good c (s.clients c) refl g
  step-Good shutdown_runs g = destroy-Good s.shutdown_pc refl g
  step-Good deletes_now g = delete-Good s.shutdown_pc refl g

pub Reach-Good : {v : Bool} {n : ℕ} {s : Pool} → Reach v n s → Good n s
Reach-Good {v} {n} start = init-Good v n
Reach-Good {n} (next {s} a r e) = After-some (Good n) e (step-Good n s a (Reach-Good r))

-- No step changes how `set_task` locks.
step-try_lock : (s : Pool) (a : Action) → After (λ t. t.try_lock ≡ s.try_lock) (step a s)
unfolding step Client.execute Client.call Shutdown.destroy Shutdown.delete_now Manager.run
    Manager.stir
step-try_lock s _ = ground arith

pub Reach-try_lock : {v : Bool} {n : ℕ} {s : Pool} → Reach v n s → s.try_lock ≡ v
Reach-try_lock start = refl
Reach-try_lock (next {s} a r e) = After-some _ e (step-try_lock s a) ∙ Reach-try_lock r
