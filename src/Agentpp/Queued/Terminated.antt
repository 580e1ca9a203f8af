-- ===== src/Agentpp/Queued/Terminated.antt =====
-- threadpool.cpp, class QueuedThreadPool: after `terminate`.
use queued_thread_pool.Prelude.{
  ℕ, ◌+◌, ◌≡◌, refl, sym, ap, ◌∙◌, Bool, true, false, Option, none, some, List, [], ◌∷◌, not, arith,
  inl, inr, Option-cases, Bool-cases, if◌then◌else◌, option_to_list, ◌==◌, if_both, is_some, count,
}
use queued_thread_pool.Agentpp.Queued.{
  Executor, Call, executes, submits, asks_idle, asks_busy, asks_length, terminates, thread_takes,
  pick, QueuedPool, queue, begun, handed, execute_at, hand_over_at, idle_at, busy_at, stop_at,
  take_at, call, call_all, new, stop, is_idle, is_busy, queue_length,
}
use queued_thread_pool.Agentpp.Queued.Account.{held, begun-held}

module _ (p : Executor) where
  open p use {
    Executing, waiting, closed, next, submit, close, try_executing_one, take, submit_closed,
    submit_open, waiting-close, closed-close, waiting-tried, closed-tried, waiting-take,
    closed-take,
  }

  abbrev shut : Option Executing → Bool
  shut none = true
  shut (some e) = closed e

  -- What a call that makes `u` of `s` leaves as it is; the last two, once the executor is closed.
  record Leaves (s u : QueuedPool p) : Type 0 where
    sized : u.size ≡ s.size
    present : is_some u.ea ≡ is_some s.ea
    over : shut s.ea ≡ true → shut u.ea ≡ true
    same : shut s.ea ≡ true → (x : ℕ) → held p x u ≡ held p x s

  Leaves-refl : (s : QueuedPool p) → Leaves s s
  Leaves-refl s = record { sized = refl; present = refl; over = λ h. h; same = λ h x. refl }

  module _ (s : QueuedPool p) where
    execute-Leaves : (t : ℕ) (o : Option Executing) → Leaves s (execute_at p t s o)
    unfolding execute_at
    execute-Leaves t none = record {
      sized = refl;
      present = refl;
      over = λ h. h;
      same = λ h x. refl;
    }
    execute-Leaves t (some e) =
        if_both (Leaves s) (closed e) _ _
          (λ c. record { sized = refl; present = refl; over = λ h. h; same = λ h x. refl })
          (λ c. record { sized = refl; present = refl; over = λ h. h; same = λ h x. refl })

    handed-Leaves :
        (t : ℕ) (l : List ℕ) (e : Executing)
        → s.ea ≡ some e
        → Leaves s (handed p t l s (submit t e))
    handed-Leaves t l e h = elim (Bool-cases (closed e)) [
      | inl c ↦
          rw (submit_closed t e c)
            (record { sized = refl; present = refl; over = λ h. h; same = λ h x. refl })
      | inr c ↦ rw (submit_open t e c) (record {
        sized = refl;
        present = ap is_some (sym h);
        over = λ k. absurd (open_shut e h c k);
        same = λ k x. absurd (open_shut e h c k);
      })
    ]
      where
        open_shut : (e : Executing) → s.ea ≡ some e → closed e ≡ false → shut s.ea ≡ true → ⊥
        open_shut e h c k = ground (arith, h, c, k)

    hand_over-Leaves :
        (k : ℕ) (o : Option Executing) → s.ea ≡ o → Leaves s (hand_over_at p s (pick k s.calling) o)
    unfolding hand_over_at
    hand_over-Leaves k none h = elim (Option-cases (pick k s.calling)) [
      | inl g ↦ rw (g) (Leaves-refl s)
      | inr ((t, l), g) ↦ rw (g) (Leaves-refl s)
    ]
    hand_over-Leaves k (some e) h = elim (Option-cases (pick k s.calling)) [
      | inl g ↦ rw (g) (Leaves-refl s)
      | inr ((t, l), g) ↦ rw (g) (handed-Leaves t l e h)
    ]

    begun-Leaves :
        (e e' : Executing)
        → s.ea ≡ some e
        → closed e' ≡ closed e
        → ((x : ℕ) → count x (waiting e) ≡ count x (option_to_list (next e)) + count x (waiting e'))
        → Leaves s (begun p e e' s)
    begun-Leaves e e' h c w = record {
      sized = refl;
      present = ap is_some (sym h);
      over = λ k. c ∙ ap shut (sym h) ∙ k;
      same = λ k x. begun-held p s e e' h w x;
    }

    abbrev Answered : Bool × QueuedPool p → Type 0
    Answered r = Leaves s r.1

    idle-Leaves : (o : Option Executing) → s.ea ≡ o → Leaves s (idle_at p s o).1
    unfolding idle_at
    idle-Leaves none h = Leaves-refl s
    idle-Leaves (some e) h =
        if_both Answered (closed e) _ _ (λ _. Leaves-refl s)
          (λ _. begun-Leaves e _ h (closed-tried e) (waiting-tried e))

    busy-Leaves : (o : Option Executing) → s.ea ≡ o → Leaves s (busy_at p s o).1
    unfolding busy_at
    busy-Leaves none h = Leaves-refl s
    busy-Leaves (some e) h =
        if_both Answered (closed e) _ _ (λ _. Leaves-refl s)
          (λ _. begun-Leaves e _ h (closed-tried e) (waiting-tried e))

    stop-Leaves : (o : Option Executing) → s.ea ≡ o → Leaves s (stop_at p s o)
    unfolding stop_at
    stop-Leaves none h = record { sized = refl; present = refl; over = λ k. k; same = λ k x. refl }
    stop-Leaves (some e) h = record {
      sized = refl;
      present = ap is_some (sym h);
      over = λ k. closed-close e;
      same = λ k x. omega (arith, ap (count x) (waiting-close e), ap (λ o. count x (queue p o)) h);
    }

    take-Leaves : (o : Option Executing) → s.ea ≡ o → Leaves s (take_at p s o)
    unfolding take_at
    take-Leaves none h = Leaves-refl s
    take-Leaves (some e) h = begun-Leaves e _ h (closed-take e) (waiting-take e)

    asks-Leaves :
        (r : Bool × QueuedPool p) → Leaves s r.1 → Leaves s (if s.size == 0 then (true, s) else r).1
    asks-Leaves r h = if_both Answered (s.size == 0) _ _ (λ _. Leaves-refl s) (λ _. h)

  call-Leaves : (c : Call) (s : QueuedPool p) → Leaves s (call p c s)
  unfolding call
  call-Leaves (executes t) s = execute-Leaves s t s.ea
  call-Leaves (submits k) s = hand_over-Leaves s k s.ea refl
  call-Leaves asks_idle s = asks-Leaves s _ (idle-Leaves s s.ea refl)
  call-Leaves asks_busy s = asks-Leaves s _ (busy-Leaves s s.ea refl)
  call-Leaves asks_length s = asks-Leaves s _ (busy-Leaves s s.ea refl)
  call-Leaves terminates s = stop-Leaves s s.ea refl
  call-Leaves thread_takes s = take-Leaves s s.ea refl

  Leaves-trans : (s u v : QueuedPool p) → Leaves s u → Leaves u v → Leaves s v
  Leaves-trans s u v a b = record {
    sized = b.sized ∙ a.sized;
    present = b.present ∙ a.present;
    over = λ h. b.over (a.over h);
    same = λ h x. b.same (a.over h) x ∙ a.same h x;
  }

  call_all-Leaves : (cs : List Call) (s : QueuedPool p) → Leaves s (call_all p cs s)
  unfolding call_all
  call_all-Leaves [] s = Leaves-refl s
  call_all-Leaves (c ∷ cs) s =
      Leaves-trans s (call p c s) _ (call-Leaves c s) (call_all-Leaves cs (call p c s))

  -- `stop` closes the executor, and leaves its tasks to it.
  stop-shut : (s : QueuedPool p) (o : Option Executing) → s.ea ≡ o → shut (stop_at p s o).ea ≡ true
  unfolding stop_at
  stop-shut s none h = ap shut h
  stop-shut s (some e) h = closed-close e

  stop-held :
      (s : QueuedPool p) (o : Option Executing)
      → s.ea ≡ o
      → (x : ℕ) → held p x (stop_at p s o) ≡ held p x s
  unfolding stop_at
  stop-held s none h x = refl
  stop-held s (some e) h x =
      omega (arith, ap (count x) (waiting-close e), ap (λ o. count x (queue p o)) h)

  answers_at :
      (s : QueuedPool p) (n : ℕ) (o : Option Executing)
      → s.size ≡ n
      → is_some o ≡ not (n == 0)
      → shut o ≡ true
      → s.ea ≡ o
      → ((is_idle p s).0 ≡ (n == 0)) × ((is_busy p s).0 ≡ true) × ((queue_length p s).0 ≡ 1)
  unfolding is_idle is_busy queue_length
  answers_at s n none z h k e = ground (arith, z, h, e)
  answers_at s n (some x) z h k e = ground (arith, z, h, k, e)

  new-present : (n : ℕ) → is_some (new p n).ea ≡ not (n == 0)
  new-present n = ground arith

  -- Over every executor that keeps the documented laws, for a new pool of any size, any calls, a call of
  -- `terminate`, and any calls after it, those of `execute` included that passed its test before: the
  -- tasks that the executor has or that were started are those at that call, and no other; `is_idle`
  -- answers false, unless the size is 0; `is_busy` answers true and `queue_length` answers 1, whether
  -- or not a task waits.
  pub terminate_is_final :
      (n : ℕ) (before after : List Call)
      → let s = call_all p before (new p n) in
        let u = call_all p after (stop p s) in
        ((x : ℕ)
          → count x u.started + count x (queue p u.ea) ≡ count x s.started + count x (queue p s.ea))
        × ((is_idle p u).0 ≡ (n == 0))
        × ((is_busy p u).0 ≡ true)
        × ((queue_length p u).0 ≡ 1)
  unfolding stop
  terminate_is_final n before after =
      let s = call_all p before (new p n) in
      let t = stop_at p s s.ea in
      let u = call_all p after t in
      let first =
        Leaves-trans (new p n) s t (call_all-Leaves before (new p n)) (stop-Leaves s s.ea refl) in
      let end = call_all-Leaves after t in
      let closed_then = stop-shut s s.ea refl in
      let sized : u.size ≡ n = end.sized ∙ first.sized in
      let answers =
        answers_at u n u.ea sized (end.present ∙ first.present ∙ new-present n)
          (end.over closed_then) refl in
      (λ x. end.same closed_then x ∙ stop-held s s.ea refl x, answers.0, answers.1, answers.2)
