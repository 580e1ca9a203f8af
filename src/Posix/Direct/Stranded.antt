-- ===== src/Posix/Direct/Stranded.antt =====
-- posix/threadpool.cpp: the clients that still wait when `terminate` has returned.
use queued_thread_pool.Prelude.{
  subst, Option, ℕ, suc, ◌+◌, ◌≤◌, ◌≡◌, refl, ap, Bool, true, false, none, some, List, [], ◌∷◌,
  is_some, ltb, ◌==◌, weigh, weigh-replace_le, inl, inr, Option-cases, follow, arith, After,
  After-if, After-lock, After-guarded, After-some,
}
use queued_thread_pool.Posix.Pool.Shutdown.{has_exited}
use queued_thread_pool.Posix.Direct.State.{
  Direct, ClientPc, away, entering, scanning, setting, waiting, woken, TerminatePc, serving,
  locking, stopping, deleting, joining, clearing, telling, ended, is_waiting, any_waiting, move,
  notify,
}
use queued_thread_pool.Posix.Direct.System.{
  begin, execute, call, terminate, call_terminate, Action, worker_runs, worker_stirs, calls,
  client_runs, client_stirs, terminates, terminate_runs, step, Reach,
}
use queued_thread_pool.Posix.Direct.Account.{is_over}
use queued_thread_pool.Posix.Direct.Steps.{Reach-Good}

abbrev waits : ClientPc → ℕ
waits (waiting t) = 1
waits _ = 0

-- How many of the first `m` clients are in `wait()`, and not notified.
abbrev pub waiters : ℕ → Direct → ℕ
waiters m s = weigh waits m s.clients

-- How often `terminate` is called in a schedule, and whether no wait ends spuriously.
abbrev pub terminations : List Action → ℕ
terminations [] = 0
terminations (terminates ∷ l) = suc (terminations l)
terminations (_ ∷ l) = terminations l

abbrev pub no_stir : List Action → Bool
no_stir [] = true
no_stir (client_stirs c ∷ l) = false
no_stir (_ ∷ l) = no_stir l

-- The call of `terminate` that goes on, and so will notify.
abbrev pending : TerminatePc → ℕ
pending serving = 0
pending ended = 0
pending _ = 1

no_worker : (i n : ℕ) → n ≡ 0 → ltb i n ≡ false
no_worker i n h = ground (arith, h)

module _ (m : ℕ) (o : Direct) where
  -- Since `o`, no task has been executed, and `k` clients at most have been notified or are about to be.
  abbrev Stays : ℕ → Direct → Type 0
  Stays k s =
      (s.size ≡ 0)
      × (s.executed ≡ o.executed)
      × (waiters m o + pending s.terminate_pc ≤ waiters m s + k)

  module _ (k : ℕ) where
    move-Stays :
        (s : Direct) (c : ℕ) (p : ClientPc)
        → waits (s.clients c) ≡ 0
        → Stays k s
        → Stays k (move s c p)
    move-Stays s c p h w = (w.0, w.1, omega (arith, w.2, h, weigh-replace_le waits m s.clients c p))

    begin-Stays :
        (s : Direct) (c t : ℕ) → waits (s.clients c) ≡ 0 → Stays k s → After (Stays k) (begin s c t)
    begin-Stays s c t h w =
        After-if (Stays k) (is_some s.owner) none _ (λ e. tt)
          (λ e.
            After-if (Stays k) (s.size == 0) (some _) (some _) (λ z. move-Stays s c away h w)
              (λ z. move-Stays s c (scanning t 0) h w))

    execute-Stays :
        (s : Direct) (c : ℕ) (p : ClientPc)
        → s.clients c ≡ p
        → Stays k s
        → After (Stays k) (execute c s p)
    unfolding execute
    execute-Stays s c away e w = tt
    execute-Stays s c (entering t) e w = begin-Stays s c t (ap waits e) w
    execute-Stays s c (scanning t i) e w =
        After-if (Stays k) (ltb i s.size) _ (some _)
          (λ h. After-lock (Stays k) (s.workers i).monitor _ (λ f. move-Stays s c _ (ap waits e) w))
          (λ h. move-Stays s c (waiting t) (ap waits e) w)
    execute-Stays s c (setting t i) e w =
        After-if (Stays k) (s.workers i).monitor none _ (λ f. tt)
          (λ f.
            After-if (Stays k) (is_some (s.workers i).task) (some _) (some _)
              (λ z. move-Stays s c (scanning t (suc i)) (ap waits e) w)
              (λ z. move-Stays s c away (ap waits e) w))
    execute-Stays s c (waiting t) e w = tt
    execute-Stays s c (woken t) e w = begin-Stays s c t (ap waits e) w

    call-Stays :
        (s : Direct) (c t : ℕ) (p : ClientPc)
        → s.clients c ≡ p
        → Stays k s
        → After (Stays k) (call c s p t)
    unfolding call
    call-Stays s c t away e w = move-Stays s c (entering t) (ap waits e) w
    call-Stays s c t _ e w = tt

    -- `notify()` takes one waiter at most, as the call of `terminate` ends.
    waits-le : (p : ClientPc) → waits p ≤ 1
    waits-le (waiting t) = omega arith
    waits-le _ = omega arith

    notify-Stays :
        (s : Direct) (c : ℕ)
        → s.terminate_pc ≡ telling
        → Stays k s
        → After (Stays k) (notify m c (record s { owner = none; terminate_pc = ended }))
    notify-Stays s c e w =
        After-if (Stays k) (is_waiting (s.clients c)) (some _) _
          (λ h. (
            w.0,
            w.1,
            omega (
              arith,
              w.2,
              ap pending e,
              waits-le (s.clients c),
              weigh-replace_le waits m s.clients c _,
            ),
          ))
          (λ h.
            After-lock (Stays k) (any_waiting m s.clients) _
              (λ f. (w.0, w.1, omega (arith, w.2, ap pending e))))

    terminate-Stays :
        (s : Direct) (c : ℕ) (p : TerminatePc)
        → s.terminate_pc ≡ p
        → Stays k s
        → After (Stays k) (terminate m c s p)
    unfolding terminate
    terminate-Stays s c serving e w = tt
    terminate-Stays s c locking e w =
        After-lock (Stays k) (is_some s.owner) _ (λ f. (w.0, w.1, omega (arith, w.2, ap pending e)))
    terminate-Stays s c (stopping i) e w =
        rw (no_worker i s.size w.0) (w.0, w.1, omega (arith, w.2, ap pending e))
    terminate-Stays s c (deleting i) e w =
        rw (no_worker i s.size w.0) (w.0, w.1, omega (arith, w.2, ap pending e))
    terminate-Stays s c (joining i) e w =
        After-if (Stays k) (s.workers i).alive _ (some _)
          (λ f.
            After-if (Stays k) (has_exited (s.workers i).pc) (some _) none
              (λ h. (w.0, w.1, omega (arith, w.2, ap pending e))) (λ h. tt))
          (λ f. (w.0, w.1, omega (arith, w.2, ap pending e)))
    terminate-Stays s c clearing e w = (refl, w.1, omega (arith, w.2, ap pending e))
    terminate-Stays s c telling e w = notify-Stays s c e w
    terminate-Stays s c ended e w = tt

  call_terminate-Stays :
      (k : ℕ) (s : Direct) (p : TerminatePc)
      → s.terminate_pc ≡ p
      → Stays k s
      → After (Stays (suc k)) (call_terminate s p)
  unfolding call_terminate
  call_terminate-Stays k s serving e w = (w.0, w.1, omega (arith, w.2, ap pending e))
  call_terminate-Stays k s ended e w = (w.0, w.1, omega (arith, w.2, ap pending e))
  call_terminate-Stays k s _ e w = tt

  abbrev raised : Action → ℕ → ℕ
  raised terminates k = suc k
  raised _ k = k

  abbrev spurious : Action → Bool
  spurious (client_stirs c) = true
  spurious _ = false

  step-Stays :
      (k : ℕ) (a : Action) (s : Direct)
      → spurious a ≡ false
      → Stays k s
      → After (Stays (raised a k)) (step m a s)
  unfolding step
  step-Stays k (worker_runs i c) s h w = rw (no_worker i s.size w.0) tt
  step-Stays k (worker_stirs i) s h w = rw (no_worker i s.size w.0) tt
  step-Stays k (calls c t) s h w =
      After-guarded (Stays k) (ltb c m) _ (λ e. call-Stays k s c t (s.clients c) refl w)
  step-Stays k (client_runs c) s h w =
      After-guarded (Stays k) (ltb c m) _ (λ e. execute-Stays k s c (s.clients c) refl w)
  step-Stays k (client_stirs c) s h w = cc
  step-Stays k terminates s h w = call_terminate-Stays k s s.terminate_pc refl w
  step-Stays k (terminate_runs c) s h w = terminate-Stays k s c s.terminate_pc refl w

  terminations-cons :
      (a : Action) (l : List Action) (k : ℕ)
      → terminations l + raised a k ≡ terminations (a ∷ l) + k
  terminations-cons terminates l k = omega arith
  terminations-cons _ l k = refl

  no_stir-cons :
      (a : Action) (l : List Action)
      → no_stir (a ∷ l) ≡ true
      → (spurious a ≡ false) × (no_stir l ≡ true)
  no_stir-cons (client_stirs c) l h = cc
  no_stir-cons _ l h = (refl, h)

  follow-Stays :
      (k : ℕ) (l : List Action) (s : Direct)
      → no_stir l ≡ true
      → Stays k s
      → After (Stays (terminations l + k)) (follow (step m) l s)
  follow-Stays k [] s h w = (w.0, w.1, omega (arith, w.2))
  follow-Stays k (a ∷ l) s h w = elim (Option-cases (step m a s)) [
    | inl e ↦ rw (e, follow) tt
    | inr (u, e) ↦
        let c = no_stir-cons a l h in
        let made = After-some (Stays (raised a k)) e (step-Stays k a s c.0 w) in
        subst (λ j. After (Stays j) (follow (step m) (a ∷ l) s)) (terminations-cons a l k)
          (rw (e, follow) (follow-Stays (raised a k) l u c.1 made))
  ]

abbrev pub Abandoned : ℕ → Direct → ℕ → Direct → Type 0
Abandoned m s k u = (u.size ≡ 0) × (u.executed ≡ s.executed) × (waiters m s ≤ waiters m u + k)

After-weaker :
    (m : ℕ) (s : Direct) (k : ℕ) (r : Option Direct)
    → After (Stays m s (k + 0)) r
    → After (Abandoned m s k) r
After-weaker m s k none w = tt
After-weaker m s k (some u) w = (w.0, w.1, omega (arith, w.2))

-- From a state that a ThreadPool's threads reach in which `terminate` has returned, after every schedule in
-- which no client's wait ends spuriously: the pool has no task manager and has executed no further
-- task, and of the clients that waited in `execute` as many still wait as there were, less one at most
-- for each further call of `terminate`, the destructor's included.
pub stranded_clients :
    {n m : ℕ} {started : ℕ → Bool} {s : Direct}
    → Reach n m started s
    → s.terminate_pc ≡ ended
    → (l : List Action) → no_stir l ≡ true
    → After (Abandoned m s (terminations l)) (follow (step m) l s)
stranded_clients {m} {s} r e l h = After-weaker m s (terminations l) (follow (step m) l s) (
    follow-Stays m s 0 l s h
      ((Reach-Good r).gone (ap is_over e), refl, omega (arith, ap pending e)))
