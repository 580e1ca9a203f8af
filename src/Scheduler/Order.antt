-- ===== src/Scheduler/Order.antt =====
-- priority_scheduler.cpp: what becomes of the posted functions, and the order they are taken in.
use native.Mathlib.Bridge.{le_prop}
use queued_thread_pool.Prelude.{
  arith, ◌≤◌, ◌≡◌, refl, Bool, false, Option, none, some, List, [], ◌∷◌, ◌++◌, if_both, After,
  After-lock, After-some,
}
use mathlib.Core.List.{
  Mem, forall_mem-cons, not-mem-nil, Perm, Pairwise, perm_middle, mem-cons_of_mem, mem-cons_self,
}
use mathlib.Core.List.Perm
use queued_thread_pool.Scheduler.Queue.{Item, PriorityQueue, item_comp}
use queued_thread_pool.Scheduler.System.{
  RunPc, outside, locking, waiting, woken, decided, executing, finished, undefined, Action, runs,
  stirs, stops, gets_executor, posts, rouse, holds, Scheduler, has_work, take, run, post, stop,
  get_executor, step, Reach, start, next,
}

-- The item that `run` has taken and is executing
abbrev pub current : RunPc → List Item
current (executing a) = a ∷ []
current _ = []

current-rouse : (pc : RunPc) → current (rouse pc) ≡ current pc
current-rouse outside = refl
current-rouse locking = refl
current-rouse waiting = refl
current-rouse woken = refl
current-rouse decided = refl
current-rouse (executing a) = refl
current-rouse finished = refl
current-rouse undefined = refl

-- `a` comes after `b`, which has its priority or a higher one.
abbrev pub Later : Item → Item → Type 0
Later a b = a.priority ≤ b.priority

Later-comp : (a b : Item) → item_comp b a ≡ false → Later a b
unfolding item_comp
Later-comp a b h = ground (arith, h)

Later-prop : (a b : Item) → IsProp (Later a b)
Later-prop a b = le_prop

module _ (q : PriorityQueue) where
  open q use {
    Heap, contents, no_items, empty, push, top, pop, contents-no_items, contents-push, contents-pop,
    comp-top,
  }

  -- Every item posted is in the queue, is being executed, or has been executed.
  abbrev pub Kept : Scheduler q → RunPc → Type 0
  Kept s pc = Perm s.posted (contents s.queue ++ (current pc ++ s.executed))

  -- What was taken since the last post stands in the order of its priorities, the least first, and
  -- what waits comes after all of it.
  abbrev pub Sorted : Scheduler q → Type 0
  Sorted s =
      Pairwise Later s.batch × ((a b : Item) → Mem a (contents s.queue) → Mem b s.batch → Later a b)

  take-Kept :
      (s : Scheduler q) (o : Option Item)
      → top s.queue ≡ o
      → Kept s decided
      → Kept (take q s o) (take q s o).pc
  take-Kept s none e k = k
  take-Kept s (some a) e k = Perm.trans k (
      Perm.trans (Perm.append_right s.executed (contents-pop a s.queue e))
        (Perm.symm (perm_middle (contents (pop s.queue)) s.executed)))

  take-Sorted :
      (s : Scheduler q) (o : Option Item) → top s.queue ≡ o → Sorted s → Sorted (take q s o)
  take-Sorted s none e k = k
  take-Sorted s (some a) e k =
      let popped : Perm (contents s.queue) (a ∷ contents (pop s.queue)) =
        contents-pop a s.queue e in
      let stays : (x : Item) → Mem x (a ∷ contents (pop s.queue)) → Mem x (contents s.queue) =
        (λ x m. (Perm.mem_iff popped).1 m) in
      (
        Pairwise.cons (λ y n. k.1 a y (stays a mem-cons_self) n) k.0,
        λ x b m.
            (forall_mem-cons (Later-prop x)).1
              (
                Later-comp x a (comp-top a x s.queue e (stays x (mem-cons_of_mem a m))),
                λ y n. k.1 x y (stays x (mem-cons_of_mem a m)) n,
              )
              b,
      )

  rouse-Kept : (s : Scheduler q) → Kept s s.pc → Kept s (rouse s.pc)
  rouse-Kept s k = rw (current-rouse s.pc) k

  run-Kept : (s : Scheduler q) (pc : RunPc) → Kept s pc → After (λ t. Kept t t.pc) (run q s pc)
  unfolding run
  run-Kept s outside k = k
  run-Kept s locking k = if_both (λ c. Kept s c) (has_work q s) decided waiting (λ e. k) (λ e. k)
  run-Kept s waiting k = tt
  run-Kept s woken k = if_both (λ c. Kept s c) (has_work q s) decided waiting (λ e. k) (λ e. k)
  run-Kept s decided k =
      if_both (λ t. Kept t t.pc) s.stopped _ _ (λ e. k) (λ e. take-Kept s (top s.queue) refl k)
  run-Kept s (executing a) k = k
  run-Kept s finished k = tt
  run-Kept s undefined k = tt

  run-Sorted : (s : Scheduler q) (pc : RunPc) → Sorted s → After Sorted (run q s pc)
  unfolding run
  run-Sorted s outside k = k
  run-Sorted s locking k = k
  run-Sorted s waiting k = tt
  run-Sorted s woken k = k
  run-Sorted s decided k =
      if_both Sorted s.stopped _ _ (λ e. k) (λ e. take-Sorted s (top s.queue) refl k)
  run-Sorted s (executing a) k = k
  run-Sorted s finished k = tt
  run-Sorted s undefined k = tt

  step-Kept : (a : Action) (s : Scheduler q) → Kept s s.pc → After (λ t. Kept t t.pc) (step q a s)
  unfolding step post stop get_executor
  step-Kept runs s k = run-Kept s s.pc k
  step-Kept stirs s k = rouse-Kept s k
  step-Kept stops s k = After-lock (λ t. Kept t t.pc) (holds s.pc) _ (λ e. rouse-Kept s k)
  step-Kept gets_executor s k = k
  step-Kept (posts name priority) s k =
      let a : Item = record { name = name; priority = priority } in
      After-lock (λ t. Kept t t.pc) (holds s.pc) _
        (λ e. Perm.trans (Perm.cons a (rouse-Kept s k)) (
          Perm.append_right (current (rouse s.pc) ++ s.executed)
            (Perm.symm (contents-push a s.queue))))

  step-Sorted : (a : Action) (s : Scheduler q) → Sorted s → After Sorted (step q a s)
  unfolding step post stop get_executor
  step-Sorted runs s k = run-Sorted s s.pc k
  step-Sorted stirs s k = k
  step-Sorted stops s k = After-lock Sorted (holds s.pc) _ (λ e. k)
  step-Sorted gets_executor s k = k
  step-Sorted (posts name priority) s k =
      After-lock Sorted (holds s.pc) _ (λ e. (Pairwise.nil, λ a b m n. absurd (not-mem-nil n)))

  -- In every state that the scheduler reaches: what was posted is, up to the order, what waits in the
  -- queue, what `run` is executing, and what it has executed.
  pub scheduler_account : {b : Bool} {s : Scheduler q} → Reach q b s → Kept s s.pc
  scheduler_account start = rw (contents-no_items) Perm.nil
  scheduler_account (next a r e) =
      After-some (λ t. Kept t t.pc) e (step-Kept a _ (scheduler_account r))

  -- In every state that the scheduler reaches: of the items taken from the queue since the last call
  -- of `post`, none was taken before one of a higher priority, and no item that still waits has a
  -- higher priority than one of them.
  pub taken_by_priority : {b : Bool} {s : Scheduler q} → Reach q b s → Sorted s
  taken_by_priority start = (Pairwise.nil, λ a b m n. absurd (not-mem-nil n))
  taken_by_priority (next a r e) = After-some Sorted e (step-Sorted a _ (taken_by_priority r))
