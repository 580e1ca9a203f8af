-- ===== src/Posix/Pool/Dispatcher.antt =====
-- `QueuedThreadPool::run` and `assign`: one step of the pool's own thread.
use queued_thread_pool.Prelude.{
  ℕ, suc, Bool, true, false, Option, none, some, List, [], ◌++◌, ◌∷◌, is_some, is_empty, rest, ltb,
  if◌then◌else◌, ◌&&◌,
}
use queued_thread_pool.Posix.Pool.State.{
  Worker, System, DispatcherPc, starting, outer, inner, scanning, setting, popping, parking, idling,
  asleep, roused, again, done, dispatcher, put, wake, is_idle,
}

-- `while (go && !queue.empty())` and `queue.front()`
abbrev outer_pc : Bool → List ℕ → DispatcherPc
outer_pc true (t ∷ ts) = inner t
outer_pc true [] = idling
outer_pc false q = idling

-- After the wait: the loop whose body it is.
abbrev resume : Option ℕ → DispatcherPc
resume (some t) = inner t
resume none = idling

-- `tm->is_idle()`, which blocks while the task manager's mutex is held
scan : System → ℕ → ℕ → Worker → Option System
scan s t i w =
    if w.monitor
    then none
    else some (record s { dispatcher_pc = if is_idle w then setting t i else scanning t (suc i) })

-- `tm->set_task(t)`, which blocks while the task manager's mutex is held
set_task : System → ℕ → ℕ → Worker → Option System
set_task s t i w =
    if w.monitor
    then none
    else if is_some w.task
    then some (record s { dispatcher_pc = scanning t (suc i) })
    else some (record (put s i (record w { task = some t; pc = wake w.pc })) {
      dispatcher_pc = popping;
      dispatched = s.dispatched ++ t ∷ [];
    })

-- `assign(t)`, at task manager `i` of its loop
assign : System → ℕ → ℕ → Option System
unfolding scan
assign s t i =
    if ltb i s.size then scan s t i (s.workers i) else some (record s { dispatcher_pc = parking t })

unfoldable pub dispatch : System → DispatcherPc → Option System
unfolding assign set_task
dispatch s starting =
    if is_some s.owner
    then none
    else some (record s { owner = some dispatcher; dispatcher_pc = outer })
dispatch s outer = some (record s { dispatcher_pc = outer_pc s.go s.queue })
dispatch s (inner t) = some (record s { dispatcher_pc = if s.go then scanning t 0 else outer })
dispatch s (scanning t i) = assign s t i
dispatch s (setting t i) = set_task s t i (s.workers i)
dispatch s popping = some (record s { queue = rest s.queue; dispatcher_pc = outer })
dispatch s (parking t) = some (record s { owner = none; dispatcher_pc = asleep (some t) })
dispatch s idling =
    if s.go && is_empty s.queue
    then some (record s { owner = none; dispatcher_pc = asleep none })
    else some (record s { dispatcher_pc = again })
dispatch s (asleep o) = none
dispatch s (roused o) =
    if is_some s.owner
    then none
    else some (record s { owner = some dispatcher; dispatcher_pc = resume o })
dispatch s again =
    if s.go
    then some (record s { dispatcher_pc = outer })
    else some (record s { owner = none; dispatcher_pc = done })
dispatch s done = none

-- A spurious wakeup, which pthread_cond_wait permits.
unfoldable pub stir : System → DispatcherPc → Option System
stir s (asleep o) = some (record s { dispatcher_pc = roused o })
stir s _ = none
