-- ===== src/Agentpp/Pool/System.antt =====
-- The task managers' threads, the clients and the terminating thread, interleaved in any order.
use queued_thread_pool.Prelude.{
  ℕ, zero, suc, ◌≡◌, Bool, true, false, Option, none, some, List, [], ◌∷◌, ltb, guarded,
}
use queued_thread_pool.Agentpp.Pool.State.{Manager, Pool, ManagerPc, ClientPc, serving}
use queued_thread_pool.Agentpp.Pool.Manager
use queued_thread_pool.Agentpp.Pool.Client
use queued_thread_pool.Agentpp.Pool.Shutdown

pub data Action : Type 0 where
  manager_runs manager_stirs : ℕ → Action
  calls : ℕ → ℕ → Action
  client_runs : ℕ → Action
  shutdown_runs deletes_now : Action

-- One step of one thread; `none` if that thread cannot make the step.
unfoldable pub step : Action → Pool → Option Pool
unfolding Manager.run Manager.stir Client.execute Client.call Shutdown.destroy Shutdown.delete_now
step (manager_runs i) s = guarded (ltb i s.size) (Manager.run i s (s.managers i) (s.managers i).pc)
step (manager_stirs i) s =
    guarded (ltb i s.size) (Manager.stir i s (s.managers i) (s.managers i).pc)
step (calls c t) s = Client.call c s (s.clients c) t
step (client_runs c) s = Client.execute c s (s.clients c)
step shutdown_runs s = Shutdown.destroy s s.shutdown_pc
step deletes_now s = Shutdown.delete_now s s.shutdown_pc

-- `TaskManager::TaskManager`
abbrev pub new_manager : Manager
new_manager = record {
  monitor = false;
  go = true;
  task = none;
  alive = true;
  pc = ManagerPc.starting;
}

-- `ThreadPool::ThreadPool`, by whether AGENTPP_SET_TASK_USE_TRY_LOCK is defined
abbrev pub init : Bool → ℕ → Pool
init try_lock n = record {
  try_lock = try_lock;
  size = n;
  managers = λ i. new_manager;
  owner = none;
  clients = λ c. ClientPc.away;
  shutdown_pc = serving;
  accepted = [];
  executed = [];
  dropped = [];
}

pub data Reach (v : Bool) (n : ℕ) : Pool → Type 0 where
  start : Reach v n (init v n)
  next : {s t : Pool} (a : Action) → Reach v n s → step a s ≡ some t → Reach v n t

-- A whole schedule, executed.
unfoldable pub run_all : List Action → Pool → Option Pool
unfolding step
run_all [] s = some s
run_all (a ∷ rest') s = elim (step a s) [ none ↦ none | some t ↦ run_all rest' t ]

-- The same action a number of times.
abbrev pub times : ℕ → Action → List Action
times zero a = []
times (suc n) a = a ∷ times n a
