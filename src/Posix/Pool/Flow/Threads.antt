-- ===== src/Posix/Pool/Flow/Threads.antt =====
-- Every step of every thread keeps the queue's discipline.
use queued_thread_pool.Prelude.{
  ℕ, suc, refl, Bool, none, some, ltb, ◌&&◌, arith, is_empty, is_some, if◌then◌else◌,
}
use queued_thread_pool.Posix.Pool.State.{
  Worker, WorkerPc, System, DispatcherPc, starting, outer, inner, scanning, setting, popping,
  parking, idling, asleep, roused, again, done, ShutdownPc, serving, stopping, deleting, joining,
  clearing, joining_dispatcher, emptying, destroyed, put, is_idle,
}
use queued_thread_pool.Posix.Pool.Worker
use queued_thread_pool.Posix.Pool.Dispatcher
use queued_thread_pool.Posix.Pool.Shutdown
use queued_thread_pool.Posix.Pool.Shutdown.{is_done, has_exited}
use queued_thread_pool.Posix.Pool.System.{
  Action, execute_by_client, execute_by_task, worker_runs, worker_stirs, dispatcher_runs,
  dispatcher_stirs, shutdown_runs, step, Reach, start, next,
}
use queued_thread_pool.Posix.Pool.After.{After, After-if, After-lock, After-guarded, After-some}
use queued_thread_pool.Posix.Pool.Flow.{
  Flow, Flows, rouse-Flow, execute_locked-Flows, move-Flow, set_task-Flow, pop-Flow, shift-Flow,
  drain-Flow,
}

dispatch-Flows :
    (s : System) (pc : DispatcherPc)
    → Flow s.queue pc s.shutdown_pc s.submitted s.dispatched s.drained
    → After Flows (Dispatcher.dispatch s pc)
unfolding Dispatcher.dispatch
dispatch-Flows s starting f =
    After-lock Flows (is_some s.owner) _
      (λ _. record { flow = move-Flow outer refl refl refl (λ t h. cc) f })
dispatch-Flows s outer f = record {
  flow = move-Flow _ refl refl (ground arith) (λ t h. ground arith) f;
}
dispatch-Flows s (inner t) f = record {
  flow = move-Flow _ refl refl (ground arith) (λ u h. ground (arith, f.hand u)) f;
}
dispatch-Flows s (scanning t i) f =
    After-if Flows (ltb i s.size) _ _
      (λ _. After-lock Flows (s.workers i).monitor _ (λ _. record {
        flow =
            move-Flow (if is_idle (s.workers i) then setting t i else scanning t (suc i)) refl refl
              (ground arith) (λ u h. ground (arith, f.hand u)) f;
      }))
      (λ _. record { flow = move-Flow (parking t) refl refl refl f.hand f })
dispatch-Flows s (setting t i) f =
    After-if Flows (s.workers i).monitor _ _ (λ _. tt)
      (λ _.
        After-if Flows (is_some (s.workers i).task) _ _
          (λ _. record { flow = move-Flow (scanning t (suc i)) refl refl refl f.hand f })
          (λ _. record { flow = set_task-Flow t i f }))
dispatch-Flows s popping f = record { flow = pop-Flow f }
dispatch-Flows s (parking t) f = record {
  flow = move-Flow (asleep (some t)) refl refl refl f.hand f;
}
dispatch-Flows s idling f =
    After-if Flows (s.go && is_empty s.queue) _ _
      (λ _. record { flow = move-Flow (asleep none) refl refl refl (λ t h. cc) f })
      (λ _. record { flow = move-Flow again refl refl refl (λ t h. cc) f })
dispatch-Flows s (asleep o) f = tt
dispatch-Flows s (roused o) f = After-lock Flows (is_some s.owner) _ (λ _. record {
  flow = move-Flow _ refl refl (ground arith) (λ u h. ground (arith, f.hand u)) f;
})
dispatch-Flows s again f =
    After-if Flows s.go _ _ (λ _. record { flow = move-Flow outer refl refl refl (λ t h. cc) f })
      (λ _. record { flow = move-Flow done refl refl refl (λ t h. cc) f })
dispatch-Flows s done f = tt

stir-Flows :
    (s : System) (pc : DispatcherPc)
    → Flow s.queue pc s.shutdown_pc s.submitted s.dispatched s.drained
    → After Flows (Dispatcher.stir s pc)
unfolding Dispatcher.stir
stir-Flows s (asleep o) f = record { flow = move-Flow (roused o) refl refl refl f.hand f }
stir-Flows s _ f = tt

run-Flows :
    (i : ℕ) (s : System) (w : Worker) (pc : WorkerPc) → Flows s → After Flows (Worker.run i s w pc)
unfolding Worker.run
run-Flows i s w WorkerPc.starting f = After-lock Flows w.monitor _ (λ _. record { flow = f.flow })
run-Flows i s w WorkerPc.looping f = record { flow = f.flow }
run-Flows i s w WorkerPc.running f = elim w.task as (λ o. After Flows (Worker.finish i s w o)) [
  | none ↦ tt
  | some t ↦ record { flow = f.flow }
]
run-Flows i s w (WorkerPc.calling u) f =
    After-lock Flows (is_some s.owner) _
      (λ _. execute_locked-Flows (put s i _) u (record { flow = f.flow }))
run-Flows i s w WorkerPc.notifying f = record { flow = rouse-Flow f.flow }
run-Flows i s w WorkerPc.checking f = record { flow = f.flow }
run-Flows i s w WorkerPc.waiting f = tt
run-Flows i s w WorkerPc.woken f = After-lock Flows w.monitor _ (λ _. record { flow = f.flow })
run-Flows i s w WorkerPc.leaving f = record { flow = f.flow }
run-Flows i s w WorkerPc.exited f = tt

call-Flows :
    (i : ℕ) (s : System) (w : Worker) (pc : WorkerPc) (u : ℕ)
    → Flows s
    → After Flows (Worker.call i s w pc u)
unfolding Worker.call
call-Flows i s w WorkerPc.running u f = record { flow = f.flow }
call-Flows i s w _ u f = tt

worker_stir-Flows :
    (i : ℕ) (s : System) (w : Worker) (pc : WorkerPc) → Flows s → After Flows (Worker.stir i s w pc)
unfolding Worker.stir
worker_stir-Flows i s w WorkerPc.waiting f = record { flow = f.flow }
worker_stir-Flows i s w _ f = tt

destroy-Flows :
    (s : System) (sp : ShutdownPc)
    → Flow s.queue s.dispatcher_pc sp s.submitted s.dispatched s.drained
    → After Flows (Shutdown.destroy s sp)
unfolding Shutdown.destroy
destroy-Flows s serving f =
    After-lock Flows (is_some s.owner) _
      (λ _. record { flow = shift-Flow (stopping 0) refl (λ e. cc) (rouse-Flow f) })
destroy-Flows s (stopping i) f =
    After-if Flows (ltb i s.size) _ _
      (λ _.
        After-lock Flows (s.workers i).monitor _
          (λ _. record { flow = shift-Flow (stopping (suc i)) refl (λ e. cc) f }))
      (λ _. record { flow = shift-Flow (deleting 0) refl (λ e. cc) f })
destroy-Flows s (deleting i) f =
    After-if Flows (ltb i s.size) _ _
      (λ _.
        After-lock Flows (s.workers i).monitor _
          (λ _. record { flow = shift-Flow (joining i) refl (λ e. cc) f }))
      (λ _. record { flow = shift-Flow clearing refl (λ e. cc) f })
destroy-Flows s (joining i) f =
    After-if Flows (s.workers i).alive _ _
      (λ _.
        After-if Flows (has_exited (s.workers i).pc) _ _
          (λ _. record { flow = shift-Flow (deleting (suc i)) refl (λ e. cc) f }) (λ _. tt))
      (λ _. record { flow = shift-Flow (deleting (suc i)) refl (λ e. cc) f })
destroy-Flows s clearing f = record { flow = shift-Flow joining_dispatcher refl (λ e. cc) f }
destroy-Flows s joining_dispatcher f =
    After-if Flows (is_done s.dispatcher_pc) _ _
      (λ e. record { flow = shift-Flow emptying refl (λ _. e) f }) (λ _. tt)
destroy-Flows s emptying f =
    After-lock Flows (is_some s.owner) _
      (λ _. record { flow = drain-Flow s.queue s.dispatcher_pc f })
destroy-Flows s destroyed f = tt

step-Flows : (a : Action) (s : System) → Flows s → After Flows (step a s)
unfolding step
step-Flows (execute_by_client t) s f =
    After-lock Flows (is_some s.owner) _ (λ _. execute_locked-Flows s t f)
step-Flows (execute_by_task i u) s f =
    After-guarded Flows _ _ (λ _. call-Flows i s (s.workers i) (s.workers i).pc u f)
step-Flows (worker_runs i) s f =
    After-guarded Flows _ _ (λ _. run-Flows i s (s.workers i) (s.workers i).pc f)
step-Flows (worker_stirs i) s f =
    After-guarded Flows _ _ (λ _. worker_stir-Flows i s (s.workers i) (s.workers i).pc f)
step-Flows dispatcher_runs s f = dispatch-Flows s s.dispatcher_pc f.flow
step-Flows dispatcher_stirs s f = stir-Flows s s.dispatcher_pc f.flow
step-Flows shutdown_runs s f = destroy-Flows s s.shutdown_pc f.flow

pub Reach-Flows : {n : ℕ} {started : ℕ → Bool} {s : System} → Reach n started s → Flows s
Reach-Flows start = record {
  flow = record {
    hand = λ t h. cc;
    pops = λ e. cc;
    order = refl;
    clean = λ _. refl;
    closed = λ e. cc;
  };
}
Reach-Flows (next {s} {t} a r e) = After-some Flows e (step-Flows a s (Reach-Flows r))
