-- ===== src/Agentpp/Pool/Safety.antt =====
-- What holds of the ThreadPool of threadpool.cpp in every state that its threads can reach.
use queued_thread_pool.Prelude.{
  ℕ, ◌+◌, ◌<◌, ◌≡◌, refl, Bool, true, false, Option, none, some, arith, is_some, count, weigh, ◌||◌,
  lt→ltb,
}
use queued_thread_pool.Agentpp.Pool.State.{
  Manager, ManagerPc, Pool, ClientPc, setting, Holder, client, terminator, scanning, ShutdownPc,
  stopping,
}
use queued_thread_pool.Agentpp.Pool.Manager
use queued_thread_pool.Agentpp.Pool.Client
use queued_thread_pool.Agentpp.Pool.Shutdown
use queued_thread_pool.Agentpp.Pool.System.{
  Action, manager_runs, client_runs, shutdown_runs, step, Reach,
}
use queued_thread_pool.Agentpp.Pool.Invariant.{
  bears, working, inside, is_stopping, is_client, is_terminator, Good, Sound,
}
use queued_thread_pool.Agentpp.Pool.Invariant.Steps.{Reach-Good, Reach-try_lock}

-- In every reachable state of a pool of `n` task managers, whichever way `set_task` locks, each task
-- was accepted by `set_task` as often as it was executed, was deleted by a task manager that left its
-- loop, and is borne by a task manager, taken together.
pub pool_account :
    {v : Bool} {n : ℕ} {s : Pool}
    → Reach v n s
    → (x : ℕ)
    → count x s.accepted ≡ count x s.executed + count x s.dropped + weigh (bears x) n s.managers
pool_account r x = omega (arith, (Reach-Good r).accounted.account x)

-- In every reachable state: each client is in the critical section of `execute` exactly if it is the one
-- holder of the pool's mutex; the terminating thread is in that of `terminate` exactly if it is that
-- holder; and the mutex of each task manager is held exactly while its thread is in the critical
-- section of `TaskManager::run`.
pub pool_exclusion :
    {v : Bool} {n : ℕ} {s : Pool}
    → Reach v n s
    → (c i : ℕ)
    → (inside (s.clients c) ≡ is_client s.owner c)
      × (is_stopping s.shutdown_pc ≡ is_terminator s.owner)
      × ((s.managers i).monitor ≡ working (s.managers i).pc)
pool_exclusion {n} {s} r c i = (g.order.held c, g.order.stopped, (g.sound i).monitored)
  where
    g : Good n s
    g = Reach-Good r

-- The step of the thread that holds the pool's mutex.
abbrev pub step_of : Holder → Action
step_of (client c) = client_runs c
step_of terminator = shutdown_runs

client_moves :
    (c : ℕ) (s : Pool) (pc : ClientPc)
    → s.try_lock ≡ true
    → inside pc ≡ true
    → is_some (Client.execute c s pc) ≡ true
unfolding Client.execute
client_moves c s (scanning t i) v h = ground arith
client_moves c s (setting t i) v h = ground arith
client_moves c s _ v h = cc

terminator_moves :
    (s : Pool) (sp : ShutdownPc) → is_stopping sp ≡ true → is_some (Shutdown.destroy s sp) ≡ true
unfolding Shutdown.destroy
terminator_moves s (stopping i) h = ground arith
terminator_moves s _ h = cc

-- Where `set_task` uses `try_lock`: in every reachable state, the thread that holds the pool's mutex,
-- in `execute` or in `terminate`, can make a step.
pub holder_moves :
    {n : ℕ} {s : Pool}
    → Reach true n s
    → (h : Holder) → s.owner ≡ some h
    → is_some (step (step_of h) s) ≡ true
unfolding step
holder_moves {s} r (client c) e =
    client_moves c s (s.clients c) (Reach-try_lock r) (ground (arith, (Reach-Good r).order.held c))
holder_moves {s} r terminator e =
    terminator_moves s s.shutdown_pc (ground (arith, (Reach-Good r).order.stopped))

-- Whether somebody holds the pool's mutex and can make a step.
abbrev pub some_holder_moves : Option Holder → Pool → Bool
some_holder_moves none s = false
some_holder_moves (some h) s = is_some (step (step_of h) s)

some_holder_moves_lem :
    {n : ℕ} {s : Pool} (o : Option Holder)
    → Reach true n s
    → s.owner ≡ o
    → some_holder_moves o s ≡ is_some o
some_holder_moves_lem none r e = refl
some_holder_moves_lem (some h) r e = holder_moves r h e

manager_moves :
    (i : ℕ) (s : Pool) (m : Manager) (pc : ManagerPc)
    → m.pc ≡ pc
    → m.alive ≡ true
    → is_some m.task ≡ true
    → Sound m
    → is_some s.owner || is_some (Manager.run i s m pc) ≡ true
unfolding Manager.run
manager_moves i s m _ e a t p = ground (arith, p.monitored, p.calm, p.live)

-- Where `set_task` uses `try_lock`: in every reachable state in which a task manager bears a task and
-- its thread has not ended, this thread can make a step, or the thread that holds the pool's mutex can.
pub borne_task_moves :
    {n : ℕ} {s : Pool}
    → Reach true n s
    → (i : ℕ) → i < n
    → (s.managers i).alive ≡ true
    → is_some (s.managers i).task ≡ true
    → some_holder_moves s.owner s || is_some (step (manager_runs i) s) ≡ true
unfolding step
borne_task_moves {n} {s} r i h a t =
    rw (some_holder_moves_lem s.owner r refl, lt→ltb i s.size (omega (arith, g.accounted.full, h)))
      (manager_moves i s (s.managers i) (s.managers i).pc refl a t (g.sound i))
  where
    g : Good n s
    g = Reach-Good r
