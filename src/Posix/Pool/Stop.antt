-- ===== src/Posix/Pool/Stop.antt =====
-- What a step of posix/threadpool.cpp may still do once the pool is stopped.
use queued_thread_pool.Prelude.{ℕ, ◌≡◌, refl, ◌⊎◌, true, false, [], arith}
use queued_thread_pool.Posix.Pool.State.{
  Worker, WorkerPc, System, DispatcherPc, starting, ShutdownPc, serving, execute,
}
use queued_thread_pool.Posix.Pool.Worker
use queued_thread_pool.Posix.Pool.Dispatcher
use queued_thread_pool.Posix.Pool.Shutdown
use queued_thread_pool.Posix.Pool.System.{
  Action, execute_by_client, execute_by_task, worker_runs, worker_stirs, dispatcher_runs,
  dispatcher_stirs, shutdown_runs, step,
}
use queued_thread_pool.Posix.Pool.After.{After, After-guarded}
use queued_thread_pool.Posix.Pool.Flow.{is_over}
use queued_thread_pool.Posix.Pool.Locks.{assigning}

-- No task is accepted or handed out, and an empty queue stays empty.
pub record Idle (s t : System) : Type 0 where
  pub go_off : t.go ≡ false
  pub no_submit : t.submitted ≡ s.submitted
  pub no_dispatch : t.dispatched ≡ s.dispatched
  pub no_push : s.queue ≡ [] → t.queue ≡ []

module _ (s : System) (off : s.go ≡ false) where
  run-Idle : (i : ℕ) (w : Worker) (pc : WorkerPc) → After (Idle s) (Worker.run i s w pc)
  unfolding Worker.run
  run-Idle i w WorkerPc.starting = ground arith
  run-Idle i w _ = ground arith

  dispatch-Idle :
      (pc : DispatcherPc) → assigning pc ≡ false → After (Idle s) (Dispatcher.dispatch s pc)
  unfolding Dispatcher.dispatch
  dispatch-Idle starting e = ground arith
  dispatch-Idle _ e = ground arith

  destroy-Idle : (sp : ShutdownPc) → After (Idle s) (Shutdown.destroy s sp)
  unfolding Shutdown.destroy
  destroy-Idle serving = ground arith
  destroy-Idle _ = ground arith

  call-Idle : (i : ℕ) (w : Worker) (pc : WorkerPc) (u : ℕ) → After (Idle s) (Worker.call i s w pc u)
  unfolding Worker.call
  call-Idle i w WorkerPc.starting u = ground arith
  call-Idle i w _ u = ground arith

  worker_stir-Idle : (i : ℕ) (w : Worker) (pc : WorkerPc) → After (Idle s) (Worker.stir i s w pc)
  unfolding Worker.stir
  worker_stir-Idle i w WorkerPc.starting = ground arith
  worker_stir-Idle i w _ = ground arith

  stir-Idle : (pc : DispatcherPc) → After (Idle s) (Dispatcher.stir s pc)
  unfolding Dispatcher.stir
  stir-Idle starting = ground arith
  stir-Idle _ = ground arith

  execute-Idle : (t : ℕ) → After (Idle s) (execute s t)
  unfolding execute
  execute-Idle t = ground arith

  pub step-Idle : (a : Action) → assigning s.dispatcher_pc ≡ false → After (Idle s) (step a s)
  unfolding step
  step-Idle (execute_by_client t) e = execute-Idle t
  step-Idle (execute_by_task i u) e =
      After-guarded (Idle s) _ _ (λ _. call-Idle i (s.workers i) (s.workers i).pc u)
  step-Idle (worker_runs i) e =
      After-guarded (Idle s) _ _ (λ _. run-Idle i (s.workers i) (s.workers i).pc)
  step-Idle (worker_stirs i) e =
      After-guarded (Idle s) _ _ (λ _. worker_stir-Idle i (s.workers i) (s.workers i).pc)
  step-Idle dispatcher_runs e = dispatch-Idle s.dispatcher_pc e
  step-Idle dispatcher_stirs e = stir-Idle s.dispatcher_pc
  step-Idle shutdown_runs e = destroy-Idle s.shutdown_pc

-- Only `EmptyQueue` ends the destruction, and it leaves the queue empty.
abbrev pub Ends : System → System → Type 0
Ends s t = is_over t.shutdown_pc ≡ true → (is_over s.shutdown_pc ≡ true) ⊎ (t.queue ≡ [])

module _ (s : System) where
  run-Ends : (i : ℕ) (w : Worker) (pc : WorkerPc) → After (Ends s) (Worker.run i s w pc)
  unfolding Worker.run
  run-Ends i w WorkerPc.starting = ground arith
  run-Ends i w _ = ground arith

  call-Ends : (i : ℕ) (w : Worker) (pc : WorkerPc) (u : ℕ) → After (Ends s) (Worker.call i s w pc u)
  unfolding Worker.call
  call-Ends i w WorkerPc.starting u = ground arith
  call-Ends i w _ u = ground arith

  worker_stir-Ends : (i : ℕ) (w : Worker) (pc : WorkerPc) → After (Ends s) (Worker.stir i s w pc)
  unfolding Worker.stir
  worker_stir-Ends i w WorkerPc.starting = ground arith
  worker_stir-Ends i w _ = ground arith

  dispatch-Ends : (pc : DispatcherPc) → After (Ends s) (Dispatcher.dispatch s pc)
  unfolding Dispatcher.dispatch
  dispatch-Ends starting = ground arith
  dispatch-Ends _ = ground arith

  stir-Ends : (pc : DispatcherPc) → After (Ends s) (Dispatcher.stir s pc)
  unfolding Dispatcher.stir
  stir-Ends starting = ground arith
  stir-Ends _ = ground arith

  destroy-Ends : (sp : ShutdownPc) → s.shutdown_pc ≡ sp → After (Ends s) (Shutdown.destroy s sp)
  unfolding Shutdown.destroy
  destroy-Ends serving e = ground arith
  destroy-Ends _ e = ground arith

  execute-Ends : (t : ℕ) → After (Ends s) (execute s t)
  unfolding execute
  execute-Ends t = ground arith

  pub step-Ends : (a : Action) → After (Ends s) (step a s)
  unfolding step
  step-Ends (execute_by_client t) = execute-Ends t
  step-Ends (execute_by_task i u) =
      After-guarded (Ends s) _ _ (λ _. call-Ends i (s.workers i) (s.workers i).pc u)
  step-Ends (worker_runs i) =
      After-guarded (Ends s) _ _ (λ _. run-Ends i (s.workers i) (s.workers i).pc)
  step-Ends (worker_stirs i) =
      After-guarded (Ends s) _ _ (λ _. worker_stir-Ends i (s.workers i) (s.workers i).pc)
  step-Ends dispatcher_runs = dispatch-Ends s.dispatcher_pc
  step-Ends dispatcher_stirs = stir-Ends s.dispatcher_pc
  step-Ends shutdown_runs = destroy-Ends s.shutdown_pc refl
