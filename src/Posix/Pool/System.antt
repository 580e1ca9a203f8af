-- ===== src/Posix/Pool/System.antt =====
-- The pool's threads, the clients and the destroying thread, interleaved in any order.
use queued_thread_pool.Prelude.{
  ℕ, zero, suc, ◌≡◌, Bool, true, false, Option, none, some, List, [], ◌∷◌, ltb, if◌then◌else◌,
  guarded,
}
use queued_thread_pool.Posix.Pool.State.{Worker, System, WorkerPc, DispatcherPc, serving, execute}
use queued_thread_pool.Posix.Pool.Worker
use queued_thread_pool.Posix.Pool.Dispatcher
use queued_thread_pool.Posix.Pool.Shutdown

pub data Action : Type 0 where
  execute_by_client : ℕ → Action
  execute_by_task : ℕ → ℕ → Action
  worker_runs worker_stirs : ℕ → Action
  dispatcher_runs dispatcher_stirs shutdown_runs : Action

-- One step of one thread; `none` if that thread cannot make the step.
unfoldable pub step : Action → System → Option System
unfolding execute Worker.run Worker.call Worker.stir Dispatcher.dispatch Dispatcher.stir
    Shutdown.destroy
step (execute_by_client t) s = execute s t
step (execute_by_task i u) s =
    guarded (ltb i s.size) (Worker.call i s (s.workers i) (s.workers i).pc u)
step (worker_runs i) s = guarded (ltb i s.size) (Worker.run i s (s.workers i) (s.workers i).pc)
step (worker_stirs i) s = guarded (ltb i s.size) (Worker.stir i s (s.workers i) (s.workers i).pc)
step dispatcher_runs s = Dispatcher.dispatch s s.dispatcher_pc
step dispatcher_stirs s = Dispatcher.stir s s.dispatcher_pc
step shutdown_runs s = Shutdown.destroy s s.shutdown_pc

-- `TaskManager::TaskManager`, by whether `pthread_create` gave it a thread
abbrev pub new_worker : Bool → Worker
new_worker started = record {
  monitor = false;
  go = true;
  task = none;
  alive = started;
  pc = if started then WorkerPc.starting else WorkerPc.exited;
}

-- `QueuedThreadPool::QueuedThreadPool`
abbrev pub init : ℕ → (ℕ → Bool) → System
init n started = record {
  size = n;
  workers = λ i. new_worker (started i);
  queue = [];
  go = true;
  owner = none;
  dispatcher_pc = DispatcherPc.starting;
  shutdown_pc = serving;
  submitted = [];
  refused = [];
  dispatched = [];
  executed = [];
  dropped = [];
  drained = [];
}

pub data Reach (n : ℕ) (started : ℕ → Bool) : System → Type 0 where
  start : Reach n started (init n started)
  next : {s t : System} (a : Action) → Reach n started s → step a s ≡ some t → Reach n started t

-- A whole schedule, executed.
unfoldable pub run : List Action → System → Option System
unfolding step
run [] s = some s
run (a ∷ as') s = elim (step a s) [ none ↦ none | some t ↦ run as' t ]

-- The same action a number of times.
abbrev pub times : ℕ → Action → List Action
times zero a = []
times (suc n) a = a ∷ times n a

-- The state in which a schedule ends, for a pool of `n` task managers that all have a thread.
abbrev pub or_init : ℕ → Option System → System
or_init n none = init n (λ _. true)
or_init n (some s) = s
