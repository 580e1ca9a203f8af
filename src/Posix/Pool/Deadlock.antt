-- ===== src/Posix/Pool/Deadlock.antt =====
-- posix/threadpool.cpp: a task that calls `execute` on its own pool while the dispatcher asks its
-- task manager whether it is idle. The dispatcher holds the mutex of `thread` and waits for the task
-- manager's; the task runs under the task manager's and waits for the mutex of `thread`.
use queued_thread_pool.Prelude.{
  ℕ, ◌<◌, ◌≡◌, ◌≢◌, refl, ap, ◌∙◌, Bool, true, false, Option, none, some, List, arith, is_some,
  lt→ltb,
}
use queued_thread_pool.Posix.Pool.State.{
  Worker, WorkerPc, calling, System, scanning, ShutdownPc, serving, stopping, deleting, joining,
  clearing, joining_dispatcher, emptying, destroyed, dispatcher, put, rouse,
}
use queued_thread_pool.Posix.Pool.Worker
use queued_thread_pool.Posix.Pool.Dispatcher
use queued_thread_pool.Posix.Pool.Shutdown
use queued_thread_pool.Posix.Pool.System.{
  Action, execute_by_client, execute_by_task, worker_runs, worker_stirs, dispatcher_runs,
  dispatcher_stirs, shutdown_runs, step, run, Reach,
}
use queued_thread_pool.Posix.Pool.After.{After, After-lock, After-guarded, After-some, run-After}
use queued_thread_pool.Posix.Pool.Locks.{terminating, working, Lock}
use queued_thread_pool.Posix.Pool.Locks.Threads.{Reach-Locks}

-- Task manager `i` is inside a task's call of `execute u`, and the dispatcher waits for it; the
-- queue is `q`.
record Deadlocked (i u t : ℕ) (q : List ℕ) (s : System) : Type 0 where
  member : i < s.size
  caller : (s.workers i).pc ≡ calling u
  locked : (s.workers i).monitor ≡ true
  asker : s.dispatcher_pc ≡ scanning t i
  owned : s.owner ≡ some dispatcher
  outside : terminating s.shutdown_pc ≡ false
  same_queue : s.queue ≡ q

module _ {i u t : ℕ} {q : List ℕ} where
  put-Stuck :
      (s : System) (j : ℕ) (w : Worker)
      → j ≢ i
      → Deadlocked i u t q s
      → Deadlocked i u t q (put s j w)
  put-Stuck s j w ne d = record {
    member = d.member;
    caller = ground (arith, d.caller);
    locked = ground (arith, d.locked);
    asker = d.asker;
    owned = d.owned;
    outside = d.outside;
    same_queue = d.same_queue;
  }

  notify-Stuck :
      (s : System)
      → Deadlocked i u t q s
      → Deadlocked i u t q (record s { dispatcher_pc = rouse s.dispatcher_pc })
  notify-Stuck s d = record {
    member = d.member;
    caller = d.caller;
    locked = d.locked;
    asker = rw d.asker refl;
    owned = d.owned;
    outside = d.outside;
    same_queue = d.same_queue;
  }

  log-Stuck :
      (s : System) (xs ys : List ℕ)
      → Deadlocked i u t q s
      → Deadlocked i u t q (record s { executed = xs; dropped = ys })
  log-Stuck s xs ys d = record {
    member = d.member;
    caller = d.caller;
    locked = d.locked;
    asker = d.asker;
    owned = d.owned;
    outside = d.outside;
    same_queue = d.same_queue;
  }

  not_free : (s : System) → Deadlocked i u t q s → is_some s.owner ≡ false → ⊥
  not_free s d e = cc (d.owned)

module _ {i u t : ℕ} {q : List ℕ} (s : System) (d : Deadlocked i u t q s) where
  other : {pc : WorkerPc} (j : ℕ) → (j ≡ i → pc ≡ calling u) → pc ≢ calling u → j ≢ i
  other j e ne h = ne (e h)

  finish-Stuck :
      (j : ℕ) (w : Worker) (o : Option ℕ)
      → j ≢ i
      → After (Deadlocked i u t q) (Worker.finish j s w o)
  unfolding Worker.finish
  finish-Stuck j w none ne = tt
  finish-Stuck j w (some x) ne = log-Stuck _ _ _ (put-Stuck s j _ ne d)

  run-Stuck :
      (j : ℕ) (w : Worker) (pc : WorkerPc)
      → (j ≡ i → pc ≡ calling u)
      → After (Deadlocked i u t q) (Worker.run j s w pc)
  unfolding Worker.run
  run-Stuck j w WorkerPc.starting e =
      After-lock (Deadlocked i u t q) w.monitor _ (λ _. put-Stuck s j _ (other j e (λ x. cc)) d)
  run-Stuck j w WorkerPc.looping e = put-Stuck s j _ (other j e (λ x. cc)) d
  run-Stuck j w WorkerPc.running e = finish-Stuck j w w.task (other j e (λ x. cc))
  run-Stuck j w (calling v) e =
      After-lock (Deadlocked i u t q) (is_some s.owner) _ (λ h. absurd (not_free s d h))
  run-Stuck j w WorkerPc.notifying e = notify-Stuck _ (put-Stuck s j _ (other j e (λ x. cc)) d)
  run-Stuck j w WorkerPc.checking e = put-Stuck s j _ (other j e (λ x. cc)) d
  run-Stuck j w WorkerPc.waiting e = tt
  run-Stuck j w WorkerPc.woken e =
      After-lock (Deadlocked i u t q) w.monitor _ (λ _. put-Stuck s j _ (other j e (λ x. cc)) d)
  run-Stuck j w WorkerPc.leaving e = log-Stuck _ _ _ (put-Stuck s j _ (other j e (λ x. cc)) d)
  run-Stuck j w WorkerPc.exited e = tt

  call-Stuck :
      (j : ℕ) (w : Worker) (pc : WorkerPc) (v : ℕ)
      → (j ≡ i → pc ≡ calling u)
      → After (Deadlocked i u t q) (Worker.call j s w pc v)
  unfolding Worker.call
  call-Stuck j w WorkerPc.running v e = put-Stuck s j _ (other j e (λ x. cc)) d
  call-Stuck j w _ v e = tt

  worker_stir-Stuck :
      (j : ℕ) (w : Worker) (pc : WorkerPc)
      → (j ≡ i → pc ≡ calling u)
      → After (Deadlocked i u t q) (Worker.stir j s w pc)
  unfolding Worker.stir
  worker_stir-Stuck j w WorkerPc.waiting e = put-Stuck s j _ (other j e (λ x. cc)) d
  worker_stir-Stuck j w _ e = tt

  -- The dispatcher cannot move, and neither can the destroying thread.
  dispatch-none : Dispatcher.dispatch s s.dispatcher_pc ≡ none
  unfolding Dispatcher.dispatch
  dispatch-none = rw (d.asker, Dispatcher.dispatch, lt→ltb i s.size d.member, d.locked) refl

  stir-none : Dispatcher.stir s s.dispatcher_pc ≡ none
  unfolding Dispatcher.stir
  stir-none = rw (d.asker, Dispatcher.stir) refl

  destroy-none : (sp : ShutdownPc) → terminating sp ≡ false → Shutdown.destroy s sp ≡ none
  unfolding Shutdown.destroy
  destroy-none serving e = ground (arith, d.owned)
  destroy-none (stopping j) e = cc
  destroy-none (deleting j) e = cc
  destroy-none (joining j) e = cc
  destroy-none clearing e = cc
  destroy-none joining_dispatcher e = ground (arith, d.asker)
  destroy-none emptying e = ground (arith, d.owned)
  destroy-none destroyed e = refl

step-Stuck :
    {i u t : ℕ} {q : List ℕ} (a : Action) (s : System)
    → Deadlocked i u t q s
    → After (Deadlocked i u t q) (step a s)
unfolding step
step-Stuck {i} {u} {t} {q} (execute_by_client v) s d =
    After-lock (Deadlocked i u t q) (is_some s.owner) _ (λ h. absurd (not_free s d h))
step-Stuck {i} {u} {t} {q} (execute_by_task j v) s d =
    After-guarded (Deadlocked i u t q) _ _
      (λ _. call-Stuck s d j (s.workers j) (s.workers j).pc v (λ h. rw h d.caller))
step-Stuck {i} {u} {t} {q} (worker_runs j) s d =
    After-guarded (Deadlocked i u t q) _ _
      (λ _. run-Stuck s d j (s.workers j) (s.workers j).pc (λ h. rw h d.caller))
step-Stuck {i} {u} {t} {q} (worker_stirs j) s d =
    After-guarded (Deadlocked i u t q) _ _
      (λ _. worker_stir-Stuck s d j (s.workers j) (s.workers j).pc (λ h. rw h d.caller))
step-Stuck dispatcher_runs s d = rw (dispatch-none s d) tt
step-Stuck dispatcher_stirs s d = rw (stir-none s d) tt
step-Stuck shutdown_runs s d = rw (destroy-none s d s.shutdown_pc d.outside) tt

-- Once a reachable state has the dispatcher at a task manager whose task is inside a call of `execute` on
-- the same pool, no schedule whatever brings the dispatcher or this task on, and the queue never changes:
-- the task never ends and no task is ever added to the pool or handed out again.
pub reentrant_deadlock :
    {n : ℕ} {started : ℕ → Bool} {s : System}
    → Reach n started s
    → (i t u : ℕ) → i < s.size
    → s.dispatcher_pc ≡ scanning t i
    → (s.workers i).pc ≡ calling u
    → (schedule : List Action) (s' : System) → run schedule s ≡ some s'
    → (s'.dispatcher_pc ≡ scanning t i) × ((s'.workers i).pc ≡ calling u) × (s'.queue ≡ s.queue)
reentrant_deadlock {s} r i t u h d w schedule s' e = (end.asker, end.caller, end.same_queue)
  where
    l : Lock s.owner s.go s.workers s.dispatcher_pc s.shutdown_pc
    l = (Reach-Locks r).held

    begin : Deadlocked i u t s.queue s
    begin = record {
      member = h;
      caller = w;
      locked = l.monitored i ∙ ap working w;
      asker = d;
      owned = ground (arith, l.owned);
      outside = ground (arith, l.apart);
      same_queue = refl;
    }

    end : Deadlocked i u t s.queue s'
    end = After-some _ e (run-After _ step-Stuck schedule s begin)
