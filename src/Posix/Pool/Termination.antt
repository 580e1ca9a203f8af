-- ===== src/Posix/Pool/Termination.antt =====
-- The end of the pool of posix/threadpool.cpp: what `terminate` and `~QueuedThreadPool` achieve.
use queued_thread_pool.Prelude.{
  ℕ, ◌+◌, ◌<◌, ◌≡◌, refl, inl, inr, Bool, true, false, none, some, [], arith, count, count-nil,
  weigh, weigh-eq_zero,
}
use queued_thread_pool.Posix.Pool.State.{Worker, exited, System, done, destroyed}
use queued_thread_pool.Posix.Pool.Shutdown.{has_exited}
use queued_thread_pool.Posix.Pool.System.{Action, step, Reach, start, next}
use queued_thread_pool.Posix.Pool.After.{After-some}
use queued_thread_pool.Posix.Pool.Flow.{is_over, pending}
use queued_thread_pool.Posix.Pool.Flow.Threads.{Reach-Flows}
use queued_thread_pool.Posix.Pool.Account.{bears, bears-none}
use queued_thread_pool.Posix.Pool.Locks.{assigning}
use queued_thread_pool.Posix.Pool.Locks.Threads.{Reach-Locks}
use queued_thread_pool.Posix.Pool.Lifecycle.{Life}
use queued_thread_pool.Posix.Pool.Lifecycle.Pool.{Reach-Lives}
use queued_thread_pool.Posix.Pool.Stop.{Idle, step-Idle, step-Ends}
use queued_thread_pool.Posix.Pool.Safety.{task_account}

not_assigning :
    {n : ℕ} {started : ℕ → Bool} {s : System}
    → Reach n started s
    → s.go ≡ false
    → assigning s.dispatcher_pc ≡ false
not_assigning {s} r off = ground (arith, (Reach-Locks r).held.active)

-- From a reachable state in which the pool is stopped, no step of any thread or client accepts a task or
-- hands one to a task manager, and none starts the pool again.
pub stopped_stays_stopped :
    {n : ℕ} {started : ℕ → Bool} {s t : System}
    → Reach n started s
    → s.go ≡ false
    → (a : Action) → step a s ≡ some t
    → (t.go ≡ false) × (t.submitted ≡ s.submitted) × (t.dispatched ≡ s.dispatched)
stopped_stays_stopped {s} {t} r off a e = (i.go_off, i.no_submit, i.no_dispatch)
  where
    i : Idle s t
    i = After-some (Idle s) e (step-Idle s off a (not_assigning r off))

emptied :
    {n : ℕ} {started : ℕ → Bool} {s : System}
    → Reach n started s
    → is_over s.shutdown_pc ≡ true
    → s.queue ≡ []
emptied start h = cc
emptied (next {s} {t} a r e) h = elim (After-some _ e (step-Ends s a) h) [
  | inr now ↦ now
  | inl before ↦
      let off : s.go ≡ false = ground (arith, (Reach-Locks r).held.going) in
      (After-some (Idle s) e (step-Idle s off a (not_assigning r off))).no_push (emptied r before)
]

exited_of : (w : Worker) → has_exited w.pc ≡ true → w.pc ≡ exited
exited_of w h = ground arith

-- When the destructor of the pool has returned, the thread of each of its `n` task managers has ended,
-- and no task manager bears a task.
pub task_managers_end :
    {n : ℕ} {started : ℕ → Bool} {s : System}
    → Reach n started s
    → s.shutdown_pc ≡ destroyed
    → (i : ℕ) → i < n
    → ((s.workers i).pc ≡ exited) × ((s.workers i).task ≡ none)
task_managers_end {n} {s} r e i h = (exited_of (s.workers i) gone, (life.each i).bare gone)
  where
    life : Life n s.size s.workers s.dispatcher_pc s.shutdown_pc
    life = (Reach-Lives r).life

    gone : has_exited (s.workers i).pc ≡ true
    gone = life.joined i (rw e h)

-- When the destructor of the pool has returned, the dispatcher's thread has ended, the queue is empty, and
-- every task that `execute` ever accepted has been executed, or deleted by a task manager, or deleted by
-- `EmptyQueue`, as often as it was accepted: no task is left over and none is lost.
pub destruction_complete :
    {n : ℕ} {started : ℕ → Bool} {s : System}
    → Reach n started s
    → s.shutdown_pc ≡ destroyed
    → (x : ℕ)
    → (s.dispatcher_pc ≡ done)
      × (s.queue ≡ [])
      × (count x s.submitted ≡ count x s.executed + count x s.dropped + count x s.drained)
destruction_complete {n} {s} r e x =
    (finished, empty, omega (arith, task_account r x, nothing_borne, nothing_pending))
  where
    nothing_borne : weigh (bears x) n s.workers ≡ 0
    nothing_borne =
        weigh-eq_zero (bears x) n s.workers
          (λ i h. bears-none x (s.workers i) (task_managers_end r e i h).1)

    finished : s.dispatcher_pc ≡ done
    finished = ground (arith, (Reach-Flows r).flow.closed)

    empty : s.queue ≡ []
    empty = emptied r (rw e refl)

    nothing_pending : count x (pending s.dispatcher_pc s.queue) ≡ 0
    nothing_pending = rw (finished, empty) (count-nil x)
