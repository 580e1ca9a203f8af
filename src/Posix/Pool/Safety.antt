-- ===== src/Posix/Pool/Safety.antt =====
-- What holds of the pool of posix/threadpool.cpp in every state that its threads can reach.
use queued_thread_pool.Prelude.{
  ◌&&◌, ℕ, ◌+◌, ◌<◌, ◌≡◌, refl, ap, ◌∙◌, Bool, false, none, ◌++◌, arith, count, count-append, weigh,
  lt→ltb,
}
use queued_thread_pool.Posix.Pool.State.{execute, running, System, scanning}
use queued_thread_pool.Posix.Pool.System.{step, dispatcher_runs, execute_by_client, Reach}
use queued_thread_pool.Posix.Pool.Flow.{pending}
use queued_thread_pool.Posix.Pool.Flow.Threads.{Reach-Flows}
use queued_thread_pool.Posix.Pool.Account.{bears}
use queued_thread_pool.Posix.Pool.Account.Threads.{Reach-Accounts}
use queued_thread_pool.Posix.Pool.Locks.{holder, dispatching, terminating, working, Lock}
use queued_thread_pool.Posix.Pool.Locks.Threads.{Reach-Locks}

-- In every reachable state the tasks pushed by `execute` are, in this order: those that the
-- dispatcher has handed to task managers, those that `EmptyQueue` has deleted, and those that still
-- wait in the queue. (The front of the queue does not wait any more between `set_task` and `pop`.)
pub fifo :
    {n : ℕ} {started : ℕ → Bool} {s : System}
    → Reach n started s
    → s.submitted ≡ s.dispatched ++ (s.drained ++ pending s.dispatcher_pc s.queue)
fifo r = (Reach-Flows r).flow.order

-- In every reachable state of a pool of `n` task managers each task was pushed by `execute` as often
-- as it was executed, was deleted by a task manager that left its loop, was deleted by `EmptyQueue`,
-- is borne by a task manager, and waits in the queue, taken together.
pub task_account :
    {n : ℕ} {started : ℕ → Bool} {s : System}
    → Reach n started s
    → (x : ℕ)
    → count x s.submitted
      ≡ count x s.executed
        + count x s.dropped
        + count x s.drained
        + weigh (bears x) n s.workers
        + count x (pending s.dispatcher_pc s.queue)
task_account {n} {s} r x = omega (
  arith,
  (Reach-Accounts r).holds.account x,
  ap (count x) (fifo r),
  count-append x s.dispatched (s.drained ++ pending s.dispatcher_pc s.queue),
  count-append x s.drained (pending s.dispatcher_pc s.queue),
)

-- In every reachable state: the mutex of `thread` is held by the dispatcher if it is in its critical
-- section, else by the destroying thread if this one is inside `terminate`, else by nobody; the two are
-- never inside together; and the mutex of each task manager is held exactly while its thread is in the
-- critical section of `TaskManager::run`.
pub mutual_exclusion :
    {n : ℕ} {started : ℕ → Bool} {s : System}
    → Reach n started s
    → (i : ℕ)
    → (s.owner ≡ holder s.dispatcher_pc s.shutdown_pc)
      × (dispatching s.dispatcher_pc && terminating s.shutdown_pc ≡ false)
      × ((s.workers i).monitor ≡ working (s.workers i).pc)
mutual_exclusion {s} r i = (l.owned, l.apart, l.monitored i)
  where
    l : Lock s.owner s.go s.workers s.dispatcher_pc s.shutdown_pc
    l = (Reach-Locks r).held

-- While a task manager's task is running, a dispatcher that looks at this task manager is blocked, and so
-- is every client that calls `execute`.
pub running_blocks_execute :
    {n : ℕ} {started : ℕ → Bool} {s : System}
    → Reach n started s
    → (t i u : ℕ) → i < s.size
    → s.dispatcher_pc ≡ scanning t i
    → (s.workers i).pc ≡ running
    → (step dispatcher_runs s ≡ none) × (step (execute_by_client u) s ≡ none)
unfolding step execute
running_blocks_execute {s} r t i u h d w =
    (rw (d, lt→ltb i s.size h, l.monitored i ∙ ap working w) refl, ground (arith, l.owned))
  where
    l : Lock s.owner s.go s.workers s.dispatcher_pc s.shutdown_pc
    l = (Reach-Locks r).held
