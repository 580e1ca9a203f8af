-- ===== src/Scheduler/Stop.antt =====
-- priority_scheduler.cpp: when `run` waits, and when it ends.
use queued_thread_pool.Prelude.{
  ℕ, zero, suc, ◌≡◌, refl, sym, ◌∙◌, Bool, true, false, Option, none, some, [], ◌∷◌, ◌||◌, not,
  if◌then◌else◌, if_both, arith, After, After-lock, After-some, inl, inr, Bool-cases,
}
use queued_thread_pool.Scheduler.Queue.{Item, PriorityQueue}
use queued_thread_pool.Scheduler.System.{
  RunPc, outside, locking, waiting, woken, decided, executing, finished, undefined, Action, runs,
  stirs, stops, gets_executor, posts, rouse, holds, Scheduler, has_work, take, run, post, stop,
  get_executor, step, Reach, start, next,
}

or-false : (a b : Bool) → a || b ≡ false → (a ≡ false) × (b ≡ false)
or-false true b h = ground (arith, h)
or-false false b h = (refl, h)

true≢false : (b : Bool) → b ≡ true → b ≡ false → ⊥
true≢false b h k = ground (arith, h, k)

not-false : (b : Bool) → not b ≡ false → b ≡ true
not-false true h = refl
not-false false h = ground (arith, h)

module _ (q : PriorityQueue) where
  open q use {Heap, contents, no_items, empty, push, top, pop, empty-top, contents-empty}

  -- While `run` waits and is not notified, there is nothing to do; after `hasWork()` was true there is,
  -- and `top` is called on a queue that is not empty, unless an executor has reset `stopped_`.
  abbrev pub Settled : Scheduler q → RunPc → Type 0
  Settled s waiting = (contents s.queue ≡ []) × (s.stopped ≡ false)
  Settled s decided = s.revived ≡ false → has_work q s ≡ true
  Settled s undefined = s.revived ≡ true
  Settled s _ = Unit

  take-Settled :
      (s : Scheduler q) (o : Option Item)
      → top s.queue ≡ o
      → s.stopped ≡ false
      → Settled s decided
      → Settled (take q s o) (take q s o).pc
  take-Settled s none e h k = elim (Bool-cases s.revived) [
    | inl r ↦ r
    | inr r ↦ ground (arith, k r, empty-top s.queue, e, h)
  ]
  take-Settled s (some a) e h k = tt

  check-Settled : (s : Scheduler q) → Settled s (if has_work q s then decided else waiting)
  check-Settled s =
      if_both (Settled s) (has_work q s) decided waiting (λ h r. h)
        (λ h.
          let (off, full) = or-false s.stopped (not (empty s.queue)) h in
          (contents-empty s.queue (not-false (empty s.queue) full), off))

  run-Settled :
      (s : Scheduler q) (pc : RunPc) → Settled s pc → After (λ t. Settled t t.pc) (run q s pc)
  unfolding run
  run-Settled s outside k = tt
  run-Settled s locking k = check-Settled s
  run-Settled s waiting k = tt
  run-Settled s woken k = check-Settled s
  run-Settled s decided k =
      if_both (λ t. Settled t t.pc) s.stopped _ _ (λ h. tt)
        (λ h. take-Settled s (top s.queue) refl h k)
  run-Settled s (executing a) k = tt
  run-Settled s finished k = tt
  run-Settled s undefined k = tt

  -- Another thread's step: `run` is notified, or the mutex is free.
  Settled-rouse :
      (s t : Scheduler q) (pc : RunPc)
      → holds pc ≡ false
      → s.revived ≡ t.revived
      → Settled s pc
      → Settled t (rouse pc)
  Settled-rouse s t decided h e k = ground (arith, h)
  Settled-rouse s t undefined h e k = sym e ∙ k
  Settled-rouse s t outside h e k = tt
  Settled-rouse s t locking h e k = tt
  Settled-rouse s t waiting h e k = tt
  Settled-rouse s t woken h e k = tt
  Settled-rouse s t (executing a) h e k = tt
  Settled-rouse s t finished h e k = tt

  Settled-stir : (s : Scheduler q) (pc : RunPc) → Settled s pc → Settled s (rouse pc)
  Settled-stir s waiting k = tt
  Settled-stir s decided k = k
  Settled-stir s undefined k = k
  Settled-stir s outside k = tt
  Settled-stir s locking k = tt
  Settled-stir s woken k = tt
  Settled-stir s (executing a) k = tt
  Settled-stir s finished k = tt

  executor-Settled : (s : Scheduler q) (pc : RunPc) → Settled s pc → Settled (get_executor q s) pc
  unfolding get_executor
  executor-Settled s waiting k = (k.0, refl)
  executor-Settled s decided k = λ r.
      let (same, off) = or-false s.revived s.stopped r in
      let work : has_work q s ≡ true = k same in rw (off) at work
  executor-Settled s undefined k = ground (arith, k)
  executor-Settled s _ k = tt

  step-Settled :
      (a : Action) (s : Scheduler q) → Settled s s.pc → After (λ t. Settled t t.pc) (step q a s)
  unfolding step post stop
  step-Settled runs s k = run-Settled s s.pc k
  step-Settled stirs s k = Settled-stir s s.pc k
  step-Settled stops s k =
      After-lock (λ t. Settled t t.pc) (holds s.pc) _
        (λ e. Settled-rouse s (record s { stopped = true; pc = rouse s.pc }) s.pc e refl k)
  step-Settled gets_executor s k = executor-Settled s s.pc k
  step-Settled (posts name priority) s k =
      let a : Item = record { name = name; priority = priority } in
      After-lock (λ t. Settled t t.pc) (holds s.pc) _
        (λ e.
          Settled-rouse s
            (record s {
              queue = push a s.queue;
              pc = rouse s.pc;
              posted = a ∷ s.posted;
              batch = [];
            })
            s.pc e refl k)

  -- In every state that the scheduler reaches: while `run` waits and is not notified, the queue is empty and
  -- `stopped_` is false; and if `run` has called `top` on an empty queue, then an executor was created
  -- after a call of `stop`, or before any if `stopped_` happened to be true at first.
  pub waits_without_work : {b : Bool} {s : Scheduler q} → Reach q b s → Settled s s.pc
  waits_without_work start = tt
  waits_without_work (next a r e) =
      After-some (λ t. Settled t t.pc) e (step-Settled a _ (waits_without_work r))

  -- `run` goes on by at most so many steps, while it can.
  pub runs_for : ℕ → Scheduler q → Scheduler q
  runs_for zero s = s
  runs_for (suc n) s = elim (run q s s.pc) [ none ↦ s | some t ↦ runs_for n t ]

  -- `t` is `s` when `run` has returned, with nothing more taken from the queue.
  abbrev pub Returned : Scheduler q → Scheduler q → Type 0
  Returned s t = (t.pc ≡ finished) × (t.queue ≡ s.queue)

  ends_from :
      (s : Scheduler q) (pc : RunPc)
      → s.pc ≡ pc
      → Settled s pc
      → s.revived ≡ false
      → s.stopped ≡ true
      → Returned s (runs_for 3 s)
  unfolding runs_for run
  ends_from s outside e k r h = rw (e, h) (refl, refl)
  ends_from s locking e k r h = rw (e, h) (refl, refl)
  ends_from s waiting e k r h = absurd (true≢false s.stopped h k.1)
  ends_from s woken e k r h = rw (e, h) (refl, refl)
  ends_from s decided e k r h = rw (e, h) (refl, refl)
  ends_from s (executing a) e k r h = rw (e, h) (refl, refl)
  ends_from s finished e k r h = rw (e) (refl, refl)
  ends_from s undefined e k r h = absurd (true≢false s.revived k r)

  -- In every state that the scheduler reaches: if `stopped_` is set, and no executor was created since
  -- it was first set, then `run`, once it is called, returns after at most three steps of its own,
  -- the end of the function it is executing being one, and takes nothing more from the queue.
  pub stop_ends_run :
      {b : Bool} {s : Scheduler q}
      → Reach q b s
      → s.revived ≡ false
      → s.stopped ≡ true
      → Returned s (runs_for 3 s)
  stop_ends_run {s = s} r f h = ends_from s s.pc refl (waits_without_work r) f h
