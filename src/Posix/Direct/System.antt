-- ===== src/Posix/Direct/System.antt =====
-- posix/threadpool.cpp: `TaskManager::run`, `ThreadPool::execute` and `ThreadPool::terminate`, interleaved.
use queued_thread_pool.Prelude.{
  ℕ, suc, ◌≡◌, Bool, true, false, Option, none, some, [], ◌∷◌, ◌++◌, is_some, option_to_list, ltb,
  ◌==◌, if◌then◌else◌, guarded,
}
use queued_thread_pool.Posix.Pool.State.{Worker, WorkerPc, is_idle, wake}
use queued_thread_pool.Posix.Pool.Worker.{loop_pc, check}
use queued_thread_pool.Posix.Pool.Shutdown.{has_exited}
use queued_thread_pool.Posix.Pool.System.{new_worker}
use queued_thread_pool.Posix.Direct.State.{
  Direct, ClientPc, away, entering, scanning, setting, waiting, woken, TerminatePc, serving,
  locking, stopping, deleting, joining, clearing, telling, ended, client, terminator, put, move,
  rouse, notify,
}

-- The task's `run()` has ended; `delete task`.
abbrev pub finish : ℕ → Direct → Worker → Option ℕ → Option Direct
finish i s w none = none
finish i s w (some t) = some (record (put s i (record w { task = none; pc = WorkerPc.notifying })) {
  executed = s.executed ++ t ∷ [];
})

-- One step of `TaskManager::run`, in a pool with `m` clients; a notification wakes client `c`.
unfoldable pub run : ℕ → ℕ → ℕ → Direct → Worker → WorkerPc → Option Direct
run m c i s w WorkerPc.starting =
    if w.monitor then none else some (put s i (record w { monitor = true; pc = WorkerPc.looping }))
run m c i s w WorkerPc.looping = some (put s i (record w { pc = loop_pc w }))
run m c i s w WorkerPc.running = finish i s w w.task
run m c i s w (WorkerPc.calling u) = none
run m c i s w WorkerPc.notifying = notify m c (put s i (record w { pc = WorkerPc.checking }))
run m c i s w WorkerPc.checking = some (put s i (check w))
run m c i s w WorkerPc.waiting = none
run m c i s w WorkerPc.woken =
    if w.monitor then none else some (put s i (record w { monitor = true; pc = WorkerPc.checking }))
run m c i s w WorkerPc.leaving =
    some (record (put s i (record w { task = none; monitor = false; pc = WorkerPc.exited })) {
      dropped = s.dropped ++ option_to_list w.task;
    })
run m c i s w WorkerPc.exited = none

-- A spurious wakeup of a task manager's thread
unfoldable pub stir : ℕ → Direct → Worker → WorkerPc → Option Direct
stir i s w WorkerPc.waiting = some (put s i (record w { pc = WorkerPc.woken }))
stir i s w _ = none

-- The pool's mutex taken, and `while (!tm)` and `if (taskList.empty())`
abbrev pub begin : Direct → ℕ → ℕ → Option Direct
begin s c t =
    if is_some s.owner
    then none
    else if s.size == 0
    then some (record (move s c away) { refused = s.refused ++ t ∷ [] })
    else some (record (move s c (scanning t 0)) { owner = some (client c) })

-- `tm->is_idle()`, which blocks while the task manager's mutex is held; after the last, `wait()`
abbrev pub scan : Direct → ℕ → ℕ → ℕ → Worker → Option Direct
scan s c t i w =
    if ltb i s.size
    then (if w.monitor
        then none
        else some (move s c (if is_idle w then setting t i else scanning t (suc i))))
    else some (record (move s c (waiting t)) { owner = none })

-- `tm->set_task(t)`
abbrev pub set_task : Direct → ℕ → ℕ → ℕ → Worker → Option Direct
set_task s c t i w =
    if w.monitor
    then none
    else if is_some w.task
    then some (move s c (scanning t (suc i)))
    else some (record (put (move s c away) i (record w { task = some t; pc = wake w.pc })) {
      owner = none;
    })

-- One step of `ThreadPool::execute`
unfoldable pub execute : ℕ → Direct → ClientPc → Option Direct
execute c s away = none
execute c s (entering t) = begin s c t
execute c s (scanning t i) = scan s c t i (s.workers i)
execute c s (setting t i) = set_task s c t i (s.workers i)
execute c s (waiting t) = none
execute c s (woken t) = begin s c t

-- A client that is not in a call calls `execute`.
unfoldable pub call : ℕ → Direct → ClientPc → ℕ → Option Direct
call c s away t = some (record (move s c (entering t)) { submitted = s.submitted ++ t ∷ [] })
call c s _ t = none

-- `(*cur)->stop()`
abbrev pub stop : Direct → ℕ → Worker → Option Direct
stop s i w =
    if w.monitor
    then none
    else some (record (put s i (record w { go = false })) { terminate_pc = stopping (suc i) })

-- The block of `~TaskManager`
abbrev pub halt : Direct → ℕ → Worker → Option Direct
halt s i w =
    if w.monitor
    then none
    else some
        (record (put s i (record w { go = false; pc = wake w.pc })) { terminate_pc = joining i })

-- `thread.join()` in `~TaskManager`
abbrev pub join : Direct → ℕ → Worker → Option Direct
join s i w =
    if w.alive
    then (if has_exited w.pc
        then some
            (record (put s i (record w { alive = false })) { terminate_pc = deleting (suc i) })
        else none)
    else some (record s { terminate_pc = deleting (suc i) })

-- One step of `ThreadPool::terminate`
unfoldable pub terminate : ℕ → ℕ → Direct → TerminatePc → Option Direct
terminate m c s serving = none
terminate m c s locking =
    if is_some s.owner
    then none
    else some (record s { owner = some terminator; terminate_pc = stopping 0 })
terminate m c s (stopping i) =
    if ltb i s.size then stop s i (s.workers i) else some (record s { terminate_pc = deleting 0 })
terminate m c s (deleting i) =
    if ltb i s.size then halt s i (s.workers i) else some (record s { terminate_pc = clearing })
terminate m c s (joining i) = join s i (s.workers i)
terminate m c s clearing = some (record s { size = 0; terminate_pc = telling })
terminate m c s telling = notify m c (record s { owner = none; terminate_pc = ended })
terminate m c s ended = none

-- `terminate` is called, by its user or by `~ThreadPool`, whose own EmptyTaskList then finds no task manager.
unfoldable pub call_terminate : Direct → TerminatePc → Option Direct
call_terminate s serving = some (record s { terminate_pc = locking })
call_terminate s ended = some (record s { terminate_pc = locking })
call_terminate s _ = none

pub data Action : Type 0 where
  worker_runs : ℕ → ℕ → Action  -- and the client that a notification wakes
  worker_stirs : ℕ → Action
  calls : ℕ → ℕ → Action
  client_runs client_stirs : ℕ → Action
  terminates : Action
  terminate_runs : ℕ → Action  -- the client that its notification wakes

-- One step of one thread, in a pool with `m` clients; `none` if that thread cannot make the step.
unfoldable pub step : ℕ → Action → Direct → Option Direct
unfolding run stir execute call terminate call_terminate
step m (worker_runs i c) s = guarded (ltb i s.size) (run m c i s (s.workers i) (s.workers i).pc)
step m (worker_stirs i) s = guarded (ltb i s.size) (stir i s (s.workers i) (s.workers i).pc)
step m (calls c t) s = guarded (ltb c m) (call c s (s.clients c) t)
step m (client_runs c) s = guarded (ltb c m) (execute c s (s.clients c))
step m (client_stirs c) s = guarded (ltb c m) (some (move s c (rouse (s.clients c))))
step m terminates s = call_terminate s s.terminate_pc
step m (terminate_runs c) s = terminate m c s s.terminate_pc

-- `ThreadPool::ThreadPool`, by which task managers pthread_create gave a thread
abbrev pub init : ℕ → (ℕ → Bool) → Direct
init n started = record {
  size = n;
  workers = λ i. new_worker (started i);
  owner = none;
  clients = λ c. away;
  terminate_pc = serving;
  submitted = [];
  refused = [];
  executed = [];
  dropped = [];
}

pub data Reach (n m : ℕ) (started : ℕ → Bool) : Direct → Type 0 where
  start : Reach n m started (init n started)
  next :
      {s t : Direct} (a : Action) → Reach n m started s → step m a s ≡ some t → Reach n m started t
