-- ===== src/Agentpp/Queued.antt =====
-- threadpool.cpp: class QueuedThreadPool, over a boost::basic_thread_pool. The calls are those of any
-- threads, and of the executor's own, in any order; `execute` is two steps, since the executor can be
-- closed between its test and boost::async.
pub mod Plain
pub mod Account
pub mod Terminated
use queued_thread_pool.Prelude.{
  ℕ, zero, suc, ◌+◌, ◌≡◌, Bool, true, false, Option, none, some, List, [], ◌∷◌, ◌++◌, not, ◌==◌,
  if◌then◌else◌, option_to_list, count,
}

-- A boost::basic_thread_pool, as Boost documents it, seen from a caller: the tasks that wait for it, in
-- no order, and whether it is closed. `submit` is `none` where it throws sync_queue_is_closed; `next`
-- is the task that it executes next, if any; `take` is what one of its own threads does between two
-- tasks.
pub record Executor : Type 1 where
  pub Executing : Type 0
  pub waiting : Executing → List ℕ
  pub closed : Executing → Bool
  pub next : Executing → Option ℕ
  pub opened : ℕ → Executing
  pub submitted : ℕ → Executing → Executing
  pub submit : ℕ → Executing → Option Executing
  pub close : Executing → Executing
  pub try_executing_one : Executing → Bool × Executing
  pub take : Executing → Executing
  pub waiting-opened : (n : ℕ) → waiting (opened n) ≡ []
  pub submit_closed : (t : ℕ) (e : Executing) → closed e ≡ true → submit t e ≡ none
  pub submit_open : (t : ℕ) (e : Executing) → closed e ≡ false → submit t e ≡ some (submitted t e)
  pub waiting-submitted :
      (t : ℕ) (e : Executing) (x : ℕ)
      → count x (waiting (submitted t e)) ≡ count x (t ∷ []) + count x (waiting e)
  pub waiting-close : (e : Executing) → waiting (close e) ≡ waiting e
  pub closed-close : (e : Executing) → closed (close e) ≡ true
  pub waiting-tried :
      (e : Executing) (x : ℕ)
      → count x (waiting e)
        ≡ count x (option_to_list (next e)) + count x (waiting (try_executing_one e).1)
  pub closed-tried : (e : Executing) → closed (try_executing_one e).1 ≡ closed e
  pub waiting-take :
      (e : Executing) (x : ℕ)
      → count x (waiting e) ≡ count x (option_to_list (next e)) + count x (waiting (take e))
  pub closed-take : (e : Executing) → closed (take e) ≡ closed e

pub data Call : Type 0 where
  executes : ℕ → Call  -- `execute`, up to the test
  submits : ℕ → Call  -- boost::async, in one of the calls of `execute` that have come so far
  asks_idle asks_busy asks_length terminates thread_takes : Call

-- The element at index `k`, and the others.
pub pick : ℕ → List ℕ → Option (ℕ × List ℕ)
pick k [] = none
pick zero (y ∷ ys) = some (y, ys)
pick (suc k) (y ∷ ys) = elim (pick k ys) [ none ↦ none | some (z, zs) ↦ some (z, y ∷ zs) ]

module _ (p : Executor) where
  open p use {Executing, waiting, closed, next, opened, submit, close, try_executing_one, take}

  -- `class QueuedThreadPool`, the calls of `execute` that have passed the test, and a history of the tasks
  -- that a thread of the executor or a caller has started, that `execute` has deleted, and that it has
  -- deleted as `submit` threw.
  pub record QueuedPool : Type 0 where
    pub size : ℕ
    pub go : Bool
    pub ea : Option Executing
    pub calling : List ℕ
    pub started : List ℕ
    pub refused : List ℕ
    pub rejected : List ℕ

  -- The constructors
  abbrev pub new : ℕ → QueuedPool
  new n = record {
    size = n;
    go = not (n == 0);
    ea = if n == 0 then none else some (opened n);
    calling = [];
    started = [];
    refused = [];
    rejected = [];
  }

  abbrev refuse : ℕ → QueuedPool → QueuedPool
  refuse t s = record s { refused = s.refused ++ t ∷ [] }

  pub execute_at : ℕ → QueuedPool → Option Executing → QueuedPool
  execute_at t s none = refuse t s
  execute_at t s (some e) =
      if closed e then refuse t s else record s { calling = s.calling ++ t ∷ [] }

  -- `execute`, up to the test of `ea` and `closed()`
  pub execute : ℕ → QueuedPool → QueuedPool
  unfolding execute_at
  execute t s = execute_at t s s.ea

  -- What `submit` has given for the task `t` of the calls `t` and `l`
  abbrev pub handed : ℕ → List ℕ → QueuedPool → Option Executing → QueuedPool
  handed t l s none = record s { calling = l; rejected = s.rejected ++ t ∷ [] }
  handed t l s (some e) = record s { calling = l; ea = some e }

  pub hand_over_at : QueuedPool → Option (ℕ × List ℕ) → Option Executing → QueuedPool
  hand_over_at s (some (t, l)) (some e) = handed t l s (submit t e)
  hand_over_at s _ _ = s

  -- `execute`, from the test on: boost::async in the call at index `k`
  pub hand_over : ℕ → QueuedPool → QueuedPool
  unfolding pick hand_over_at
  hand_over k s = hand_over_at s (pick k s.calling) s.ea

  -- The next task is started, if there is one, and the executor is `e'` then.
  abbrev pub begun : Executing → Executing → QueuedPool → QueuedPool
  begun e e' s = record s { ea = some e'; started = s.started ++ option_to_list (next e) }

  -- `try_executing_one` by a caller
  abbrev pub tries : Executing → QueuedPool → QueuedPool
  tries e s = begun e (try_executing_one e).1 s

  pub idle_at : QueuedPool → Option Executing → Bool × QueuedPool
  idle_at s none = (false, s)
  idle_at s (some e) = if closed e then (false, s) else (not (try_executing_one e).0, tries e s)

  -- `is_idle`: what it answers, and the pool after it
  pub is_idle : QueuedPool → Bool × QueuedPool
  unfolding idle_at
  is_idle s = if s.size == 0 then (true, s) else idle_at s s.ea

  pub busy_at : QueuedPool → Option Executing → Bool × QueuedPool
  busy_at s none = (false, s)
  busy_at s (some e) = if closed e then (true, s) else ((try_executing_one e).0, tries e s)

  -- `is_busy`
  pub is_busy : QueuedPool → Bool × QueuedPool
  unfolding busy_at
  is_busy s = if s.size == 0 then (true, s) else busy_at s s.ea

  -- `queue_length`
  pub queue_length : QueuedPool → ℕ × QueuedPool
  unfolding is_busy
  queue_length s = (if (is_busy s).0 then 1 else 0, (is_busy s).1)

  pub stop_at : QueuedPool → Option Executing → QueuedPool
  stop_at s none = record s { go = false }
  stop_at s (some e) = record s { go = false; ea = some (close e) }

  -- `stop`, which `terminate` calls
  pub stop : QueuedPool → QueuedPool
  unfolding stop_at
  stop s = stop_at s s.ea

  pub take_at : QueuedPool → Option Executing → QueuedPool
  take_at s none = s
  take_at s (some e) = begun e (take e) s

  -- One of the executor's threads takes the next task.
  pub thread_take : QueuedPool → QueuedPool
  unfolding take_at
  thread_take s = take_at s s.ea

  pub call : Call → QueuedPool → QueuedPool
  unfolding execute hand_over is_idle is_busy queue_length stop thread_take
  call (executes t) s = execute t s
  call (submits k) s = hand_over k s
  call asks_idle s = (is_idle s).1
  call asks_busy s = (is_busy s).1
  call asks_length s = (queue_length s).1
  call terminates s = stop s
  call thread_takes s = thread_take s

  unfoldable pub call_all : List Call → QueuedPool → QueuedPool
  unfolding call
  call_all [] s = s
  call_all (c ∷ cs) s = call_all cs (call c s)

  abbrev pub queue : Option Executing → List ℕ
  queue none = []
  queue (some e) = waiting e
