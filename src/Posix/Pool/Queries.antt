-- ===== src/Posix/Pool/Queries.antt =====
-- posix/threadpool.cpp: `is_idle` and `is_busy` of ThreadPool and of QueuedThreadPool, called while no
-- other thread moves. `none`: the call blocks on a mutex that another thread holds.
use queued_thread_pool.Prelude.{
  ℕ, zero, suc, ◌+◌, ◌≤◌, ◌<◌, ◌≡◌, ◌↔◌, refl, ap, Bool, true, false, Option, none, some, [], not,
  ◌&&◌, arith, is_empty, is_some, if◌then◌else◌, count, count-nil, weigh, weigh-eq_zero, ℕ_discrete,
}
use queued_thread_pool.Posix.Pool.State
use queued_thread_pool.Posix.Pool.State.{
  Worker, System, ShutdownPc, serving, emptying, destroyed, DispatcherPc, popping,
}
use queued_thread_pool.Posix.Pool.System.{Reach}
use queued_thread_pool.Posix.Pool.Flow.{pending}
use queued_thread_pool.Posix.Pool.Flow.Threads.{Reach-Flows}
use queued_thread_pool.Posix.Pool.Account.{bears, bears-none}
use queued_thread_pool.Posix.Pool.Lifecycle.Pool.{Reach-Lives}
use queued_thread_pool.Posix.Pool.Safety.{task_account}

-- The loop of `ThreadPool::is_idle`, from task manager `i` over the `k` that are left
idle_scan : (ℕ → Worker) → ℕ → ℕ → Option Bool
idle_scan ws zero i = some true
idle_scan ws (suc k) i =
    let rest = idle_scan ws k (suc i) in
    if (ws i).monitor then none else if State.is_idle (ws i) then rest else some false

-- The loop of `ThreadPool::is_busy`
busy_scan : (ℕ → Worker) → ℕ → ℕ → Option Bool
busy_scan ws zero i = some false
busy_scan ws (suc k) i =
    let rest = busy_scan ws k (suc i) in
    if (ws i).monitor then none else if not (State.is_idle (ws i)) then some true else rest

-- `ThreadPool::is_idle`, over the task managers from 0 to `size`
pub pool_is_idle : (ℕ → Worker) → ℕ → Option Bool
unfolding idle_scan
pool_is_idle ws zero = some false
pool_is_idle ws (suc n) = idle_scan ws (suc n) 0

-- `ThreadPool::is_busy`
pub pool_is_busy : (ℕ → Worker) → ℕ → Option Bool
unfolding busy_scan
pool_is_busy ws zero = some true
pool_is_busy ws (suc n) = busy_scan ws (suc n) 0

-- `thread.is_alive()`: the dispatcher runs from the constructor to its join by the destructor.
abbrev pub thread_is_alive : ShutdownPc → Bool
thread_is_alive emptying = false
thread_is_alive destroyed = false
thread_is_alive _ = true

abbrev pub negated : Option Bool → Option Bool
negated none = none
negated (some b) = some (not b)

-- `QueuedThreadPool::is_idle`
unfoldable pub is_idle : System → Option Bool
unfolding pool_is_idle
is_idle s =
    if is_some s.owner
    then none
    else if thread_is_alive s.shutdown_pc && is_empty s.queue
    then pool_is_idle s.workers s.size
    else some false

-- `QueuedThreadPool::is_busy`
unfoldable pub is_busy : System → Option Bool
unfolding pool_is_idle
is_busy s =
    if is_some s.owner
    then none
    else if not (thread_is_alive s.shutdown_pc)
    then some true
    else if is_empty s.queue
    then negated (pool_is_idle s.workers s.size)
    else some true

-- A task manager that can take a task, with its mutex free.
abbrev pub Resting : Worker → Type 0
Resting w = (w.monitor ≡ false) × (w.task ≡ none) × (w.alive ≡ true)

rests : (w : Worker) → w.monitor ≡ false → State.is_idle w ≡ true → Resting w
rests w m i = ground arith

idle_scan-Resting :
    (ws : ℕ → Worker) (k i : ℕ)
    → idle_scan ws k i ≡ some true
    → (j : ℕ) → i ≤ j
    → j < i + k
    → Resting (ws j)
unfolding idle_scan
idle_scan-Resting ws zero i h j l u = absurd (omega arith)
idle_scan-Resting ws (suc k) i h j l u = elim (ℕ_discrete i j) [
  | yes e ↦ ground (arith, rests (ws i), e)
  | no ne ↦ idle_scan-Resting ws k (suc i) (ground arith) j (omega arith) (omega arith)
]

idle_scan-all :
    (ws : ℕ → Worker) (k i : ℕ)
    → ((j : ℕ) → i ≤ j → j < i + k → Resting (ws j))
    → idle_scan ws k i ≡ some true
unfolding idle_scan
idle_scan-all ws zero i h = refl
idle_scan-all ws (suc k) i h =
    let first = h i (omega arith) (omega arith) in
    let others = idle_scan-all ws k (suc i) (λ j l u. h j (omega arith) (omega arith)) in
    rw (first.0, first.1, first.2) others

pool_is_idle-Resting :
    (ws : ℕ → Worker) (n : ℕ)
    → pool_is_idle ws n ≡ some true
    → (0 < n) × ((i : ℕ) → i < n → Resting (ws i))
unfolding pool_is_idle
pool_is_idle-Resting ws zero h = cc
pool_is_idle-Resting ws (suc n) h =
    (omega arith, λ i u. idle_scan-Resting ws (suc n) 0 h i (omega arith) (omega arith))

pool_is_idle-all :
    (ws : ℕ → Worker) (n : ℕ)
    → 0 < n
    → ((i : ℕ) → i < n → Resting (ws i))
    → pool_is_idle ws n ≡ some true
unfolding pool_is_idle
pool_is_idle-all ws zero p h = absurd (omega arith)
pool_is_idle-all ws (suc n) p h = idle_scan-all ws (suc n) 0 (λ j l u. h j (omega arith))

idle_parts :
    (s : System)
    → is_idle s ≡ some true
    → (s.owner ≡ none)
      × (thread_is_alive s.shutdown_pc ≡ true)
      × (s.queue ≡ [])
      × (pool_is_idle s.workers s.size ≡ some true)
unfolding is_idle
idle_parts s h = ground arith

pub is_idle_iff :
    (s : System)
    → (is_idle s ≡ some true) ↔ (
        (s.owner ≡ none)
        × (thread_is_alive s.shutdown_pc ≡ true)
        × (s.queue ≡ [])
        × (0 < s.size)
        × ((i : ℕ) → i < s.size → Resting (s.workers i)))
unfolding is_idle
is_idle_iff s = (
  λ h.
      let p = idle_parts s h in
      let q = pool_is_idle-Resting s.workers s.size p.3 in (p.0, p.1, p.2, q.0, q.1),
  λ p. rw (p.0, p.1, p.2) (pool_is_idle-all s.workers s.size p.3 p.4),
)

-- In every reachable state in which the destructor has not been called: if `is_idle` answers true, each
-- task that `execute` ever accepted has been executed, or was deleted by a task manager that left its
-- loop, as often as it was accepted.
pub is_idle_sound :
    {n : ℕ} {started : ℕ → Bool} {s : System}
    → Reach n started s
    → s.shutdown_pc ≡ serving
    → is_idle s ≡ some true
    → (x : ℕ) → count x s.submitted ≡ count x s.executed + count x s.dropped
is_idle_sound {n} {s} r up h x =
    omega
      (arith, task_account r x, nothing_borne, nothing_pending, ap (count x) undrained, count-nil x)
  where
    full : s.size ≡ n
    full = (Reach-Lives r).life.sized (rw up refl)

    nothing_borne : weigh (bears x) n s.workers ≡ 0
    nothing_borne =
        weigh-eq_zero (bears x) n s.workers
          (λ i u. bears-none x (s.workers i) (((is_idle_iff s).0 h).4 i (omega (arith, full, u))).1)

    nothing_pending : count x (pending s.dispatcher_pc s.queue) ≡ 0
    nothing_pending = rw (((is_idle_iff s).0 h).2) (ground (arith, count-nil x))

    undrained : s.drained ≡ []
    undrained = (Reach-Flows r).flow.clean (rw up refl)
