-- ===== src/Posix/Pool/Locks/Threads.antt =====
-- Every step of every thread keeps the mutexes in order.
use queued_thread_pool.Prelude.{
  ℕ, suc, ◌≡◌, refl, sym, ◌∙◌, Bool, true, false, Option, none, some, ◌&&◌, ltb, arith, is_empty,
  is_some, if◌then◌else◌,
}
use queued_thread_pool.Posix.Pool.State.{
  Worker, WorkerPc, System, DispatcherPc, starting, outer, inner, scanning, setting, popping,
  parking, idling, asleep, roused, again, done, ShutdownPc, serving, stopping, deleting, joining,
  clearing, joining_dispatcher, emptying, destroyed, is_idle, put, rouse, shutdown,
}
use queued_thread_pool.Posix.Pool.Worker
use queued_thread_pool.Posix.Pool.Dispatcher
use queued_thread_pool.Posix.Pool.Shutdown
use queued_thread_pool.Posix.Pool.Shutdown.{is_done, has_exited}
use queued_thread_pool.Posix.Pool.System.{
  Action, execute_by_client, execute_by_task, worker_runs, worker_stirs, dispatcher_runs,
  dispatcher_stirs, shutdown_runs, step, Reach, start, next,
}
use queued_thread_pool.Posix.Pool.After.{After, After-if, After-lock, After-guarded, After-some}
use queued_thread_pool.Posix.Pool.Locks.{
  assigning-dispatching, working, Lock, Locks, dispatching-rouse, assigning-rouse, working-wake,
  rouse-Lock, put-Lock, move-Lock, take-Lock, give-Lock, shift-Lock, execute_locked-Locks,
  init-Locks,
}

module _ (s : System) where
  finish-Locks :
      (i : ℕ) (w : Worker) (o : Option ℕ)
      → w.monitor ≡ true
      → Locks s
      → After Locks (Worker.finish i s w o)
  unfolding Worker.finish
  finish-Locks i w none e l = tt
  finish-Locks i w (some t) e l = record { held = put-Lock i _ e l.held }

  run-Locks :
      (i : ℕ) (w : Worker) (pc : WorkerPc)
      → w.monitor ≡ working pc
      → Locks s
      → After Locks (Worker.run i s w pc)
  unfolding Worker.run
  run-Locks i w WorkerPc.starting e l = After-lock Locks w.monitor _ (λ _. record {
    held = put-Lock i (record w { monitor = true; pc = WorkerPc.looping }) refl l.held;
  })
  run-Locks i w WorkerPc.looping e l = record { held = put-Lock i _ (ground arith) l.held }
  run-Locks i w WorkerPc.running e l = finish-Locks i w w.task e l
  run-Locks i w (WorkerPc.calling u) e l =
      After-lock Locks (is_some s.owner) _
        (λ _. execute_locked-Locks (put s i _) u (record { held = put-Lock i _ e l.held }))
  run-Locks i w WorkerPc.notifying e l = record { held = rouse-Lock (put-Lock i _ e l.held) }
  run-Locks i w WorkerPc.checking e l = record { held = put-Lock i _ (ground arith) l.held }
  run-Locks i w WorkerPc.waiting e l = tt
  run-Locks i w WorkerPc.woken e l = After-lock Locks w.monitor _ (λ _. record {
    held = put-Lock i (record w { monitor = true; pc = WorkerPc.checking }) refl l.held;
  })
  run-Locks i w WorkerPc.leaving e l = record {
    held = put-Lock i (record w { task = none; monitor = false; pc = WorkerPc.exited }) refl l.held;
  }
  run-Locks i w WorkerPc.exited e l = tt

  call-Locks :
      (i : ℕ) (w : Worker) (pc : WorkerPc) (u : ℕ)
      → w.monitor ≡ working pc
      → Locks s
      → After Locks (Worker.call i s w pc u)
  unfolding Worker.call
  call-Locks i w WorkerPc.running u e l = record { held = put-Lock i _ e l.held }
  call-Locks i w _ u e l = tt

  worker_stir-Locks :
      (i : ℕ) (w : Worker) (pc : WorkerPc)
      → w.monitor ≡ working pc
      → Locks s
      → After Locks (Worker.stir i s w pc)
  unfolding Worker.stir
  worker_stir-Locks i w WorkerPc.waiting e l = record { held = put-Lock i _ e l.held }
  worker_stir-Locks i w _ e l = tt

  abbrev Held : DispatcherPc → ShutdownPc → Type 0
  Held d sp = Lock s.owner s.go s.workers d sp

  dispatch-Locks : (d : DispatcherPc) → Held d s.shutdown_pc → After Locks (Dispatcher.dispatch s d)
  unfolding Dispatcher.dispatch
  dispatch-Locks starting l =
      After-lock Locks (is_some s.owner) _ (λ e. record { held = take-Lock outer e refl refl l })
  dispatch-Locks outer l = record { held = move-Lock _ (ground arith) (λ h. ground arith) l }
  dispatch-Locks (inner t) l = record { held = move-Lock _ (ground arith) (λ h. ground arith) l }
  dispatch-Locks (scanning t i) l =
      After-if Locks (ltb i s.size) _ _
        (λ _. After-lock Locks (s.workers i).monitor _ (λ _. record {
          held =
              move-Lock (if is_idle (s.workers i) then setting t i else scanning t (suc i))
                (ground arith) (λ _. l.active refl) l;
        }))
        (λ _. record { held = move-Lock (parking t) refl (λ h. cc) l })
  dispatch-Locks (setting t i) l =
      After-if Locks (s.workers i).monitor _ _ (λ _. tt)
        (λ _.
          After-if Locks (is_some (s.workers i).task) _ _
            (λ _. record { held = move-Lock (scanning t (suc i)) refl l.active l })
            (λ _. record {
              held =
                  put-Lock i _ (l.monitored i ∙ sym (working-wake (s.workers i).pc))
                    (move-Lock popping refl l.active l);
            }))
  dispatch-Locks popping l = record { held = move-Lock outer refl (λ h. cc) l }
  dispatch-Locks (parking t) l = record { held = give-Lock (asleep (some t)) refl refl refl l }
  dispatch-Locks idling l =
      After-if Locks (s.go && is_empty s.queue) _ _
        (λ _. record { held = give-Lock (asleep none) refl refl refl l })
        (λ _. record { held = move-Lock again refl (λ h. cc) l })
  dispatch-Locks (asleep o) l = tt
  dispatch-Locks (roused o) l =
      After-lock Locks (is_some s.owner) _
        (λ e. record { held = take-Lock _ e (ground arith) (ground arith) l })
  dispatch-Locks again l =
      After-if Locks s.go _ _ (λ _. record { held = move-Lock outer refl (λ h. cc) l })
        (λ _. record { held = give-Lock done refl refl refl l })
  dispatch-Locks done l = tt

  stir-Locks : (d : DispatcherPc) → Held d s.shutdown_pc → After Locks (Dispatcher.stir s d)
  unfolding Dispatcher.stir
  stir-Locks (asleep o) l = record { held = move-Lock (roused o) refl (λ h. cc) l }
  stir-Locks _ l = tt

  -- The destroying thread takes the mutex of `thread`, and stops the pool.
  begin-Lock :
      is_some s.owner ≡ false
      → Held s.dispatcher_pc serving
      → Lock (some shutdown) false s.workers (rouse s.dispatcher_pc) (stopping 0)
  begin-Lock free l = record {
    owned = ground (arith, l.owned, dispatching-rouse s.dispatcher_pc);
    apart = ground (arith, l.owned, dispatching-rouse s.dispatcher_pc);
    monitored = l.monitored;
    going = refl;
    active = λ h.
        ground
          (arith, l.owned, assigning-rouse s.dispatcher_pc, assigning-dispatching s.dispatcher_pc);
  }

  end-Lock :
      Held s.dispatcher_pc clearing → Lock none s.go s.workers s.dispatcher_pc joining_dispatcher
  end-Lock l = record {
    owned = ground (arith, l.apart);
    apart = ground arith;
    monitored = l.monitored;
    going = l.going;
    active = l.active;
  }

  destroy-Locks : (sp : ShutdownPc) → Held s.dispatcher_pc sp → After Locks (Shutdown.destroy s sp)
  unfolding Shutdown.destroy
  destroy-Locks serving l =
      After-lock Locks (is_some s.owner) _ (λ e. record { held = begin-Lock e l })
  destroy-Locks (stopping i) l =
      After-if Locks (ltb i s.size) _ _
        (λ _. After-lock Locks (s.workers i).monitor _ (λ _. record {
          held = put-Lock i _ (l.monitored i) (shift-Lock (stopping (suc i)) refl refl l);
        }))
        (λ _. record { held = shift-Lock (deleting 0) refl refl l })
  destroy-Locks (deleting i) l =
      After-if Locks (ltb i s.size) _ _
        (λ _. After-lock Locks (s.workers i).monitor _ (λ _. record {
          held =
              put-Lock i _ (l.monitored i ∙ sym (working-wake (s.workers i).pc))
                (shift-Lock (joining i) refl refl l);
        }))
        (λ _. record { held = shift-Lock clearing refl refl l })
  destroy-Locks (joining i) l =
      After-if Locks (s.workers i).alive _ _
        (λ _.
          After-if Locks (has_exited (s.workers i).pc) _ _
            (λ _. record {
              held = put-Lock i _ (l.monitored i) (shift-Lock (deleting (suc i)) refl refl l);
            })
            (λ _. tt))
        (λ _. record { held = shift-Lock (deleting (suc i)) refl refl l })
  destroy-Locks clearing l = record { held = end-Lock l }
  destroy-Locks joining_dispatcher l =
      After-if Locks (is_done s.dispatcher_pc) _ _
        (λ _. record { held = shift-Lock emptying refl refl l }) (λ _. tt)
  destroy-Locks emptying l =
      After-lock Locks (is_some s.owner) _ (λ _. record { held = shift-Lock destroyed refl refl l })
  destroy-Locks destroyed l = tt

  step-Locks : (a : Action) → Locks s → After Locks (step a s)
  unfolding step
  step-Locks (execute_by_client t) l =
      After-lock Locks (is_some s.owner) _ (λ _. execute_locked-Locks s t l)
  step-Locks (execute_by_task i u) l =
      After-guarded Locks _ _
        (λ _. call-Locks i (s.workers i) (s.workers i).pc u (l.held.monitored i) l)
  step-Locks (worker_runs i) l =
      After-guarded Locks _ _
        (λ _. run-Locks i (s.workers i) (s.workers i).pc (l.held.monitored i) l)
  step-Locks (worker_stirs i) l =
      After-guarded Locks _ _
        (λ _. worker_stir-Locks i (s.workers i) (s.workers i).pc (l.held.monitored i) l)
  step-Locks dispatcher_runs l = dispatch-Locks s.dispatcher_pc l.held
  step-Locks dispatcher_stirs l = stir-Locks s.dispatcher_pc l.held
  step-Locks shutdown_runs l = destroy-Locks s.shutdown_pc l.held

pub Reach-Locks : {n : ℕ} {started : ℕ → Bool} {s : System} → Reach n started s → Locks s
Reach-Locks {n} {started} start = init-Locks n started
Reach-Locks (next {s} a r e) = After-some Locks e (step-Locks s a (Reach-Locks r))
