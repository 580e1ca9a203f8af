-- ===== src/Posix/Pool/Flow.antt =====
-- The queue of posix/threadpool.cpp: tasks leave it in the order in which `execute` pushed them.
pub mod Threads
use mathlib.Core.Bool.{false≢true}
use mathlib.Core.List.{append_assoc, append-nil}
use queued_thread_pool.Prelude.{
  ℕ, suc, ◌≡◌, refl, sym, ap, ◌∙◌, Bool, true, false, Option, none, some, List, [], ◌∷◌, ◌++◌, ltb,
  ◌&&◌, front, rest, arith, is_empty, is_some, if◌then◌else◌, if_both, Bool-cases, inl, inr,
}
use queued_thread_pool.Posix.Pool.State.{
  Worker, WorkerPc, System, DispatcherPc, starting, outer, inner, scanning, setting, popping,
  parking, idling, asleep, roused, again, done, ShutdownPc, serving, stopping, deleting, joining,
  clearing, joining_dispatcher, emptying, destroyed, rouse, execute_locked, put, is_idle,
}
use queued_thread_pool.Posix.Pool.Worker
use queued_thread_pool.Posix.Pool.Dispatcher
use queued_thread_pool.Posix.Pool.Shutdown
use queued_thread_pool.Posix.Pool.Shutdown.{is_done, has_exited}
use queued_thread_pool.Posix.Pool.System.{
  Action, execute_by_client, execute_by_task, worker_runs, worker_stirs, dispatcher_runs,
  dispatcher_stirs, shutdown_runs, step, Reach, start, next,
}
use queued_thread_pool.Posix.Pool.After.{After, After-if, After-lock, After-guarded, After-some}

-- The task at hand, while it is the front of the queue.
abbrev pub at_hand : DispatcherPc → Option ℕ
at_hand (inner t) = some t
at_hand (scanning t i) = some t
at_hand (setting t i) = some t
at_hand (parking t) = some t
at_hand (asleep o) = o
at_hand (roused o) = o
at_hand _ = none

abbrev pub is_popping : DispatcherPc → Bool
is_popping popping = true
is_popping _ = false

-- What is still to be dispatched.
abbrev pub pending : DispatcherPc → List ℕ → List ℕ
pending pc q = if is_popping pc then rest q else q

abbrev pub past_join : ShutdownPc → Bool
past_join emptying = true
past_join destroyed = true
past_join _ = false

abbrev pub is_over : ShutdownPc → Bool
is_over destroyed = true
is_over _ = false

pub record Flow (q : List ℕ) (pc : DispatcherPc) (sp : ShutdownPc) (sub dis dra : List ℕ)
    : Type 0 where
  pub hand : (t : ℕ) → at_hand pc ≡ some t → front q ≡ some t
  pub pops : is_popping pc ≡ true → is_empty q ≡ false
  pub order : sub ≡ dis ++ (dra ++ pending pc q)
  pub clean : is_over sp ≡ false → dra ≡ []
  pub closed : past_join sp ≡ true → is_done pc ≡ true

pub record Flows (s : System) : Type 0 where
  pub flow : Flow s.queue s.dispatcher_pc s.shutdown_pc s.submitted s.dispatched s.drained

at_hand-rouse : (pc : DispatcherPc) → at_hand (rouse pc) ≡ at_hand pc
at_hand-rouse (asleep o) = refl
at_hand-rouse _ = refl

is_popping-rouse : (pc : DispatcherPc) → is_popping (rouse pc) ≡ is_popping pc
is_popping-rouse (asleep o) = refl
is_popping-rouse _ = refl

is_done-rouse : (pc : DispatcherPc) → is_done (rouse pc) ≡ is_done pc
is_done-rouse (asleep o) = refl
is_done-rouse _ = refl

front-append : (q : List ℕ) (t u : ℕ) → front q ≡ some t → front (q ++ u ∷ []) ≡ some t
front-append [] t u h = ground arith
front-append (x ∷ q) t u h = h

is_empty-append : (q : List ℕ) (u : ℕ) → is_empty (q ++ u ∷ []) ≡ false
is_empty-append [] u = refl
is_empty-append (x ∷ q) u = refl

rest-append : (q : List ℕ) (u : ℕ) → is_empty q ≡ false → rest (q ++ u ∷ []) ≡ rest q ++ u ∷ []
rest-append [] u h = ground arith
rest-append (x ∷ q) u h = refl

pending-append :
    (pc : DispatcherPc) (q : List ℕ) (u : ℕ)
    → (is_popping pc ≡ true → is_empty q ≡ false)
    → pending pc (q ++ u ∷ []) ≡ pending pc q ++ u ∷ []
pending-append popping q u h = rest-append q u (h refl)
pending-append _ q u h = refl

module _ {q : List ℕ} {pc : DispatcherPc} {sp : ShutdownPc} {sub dis dra : List ℕ} where
  rouse-Flow : Flow q pc sp sub dis dra → Flow q (rouse pc) sp sub dis dra
  rouse-Flow f = record {
    hand = λ t h. f.hand t (sym (at_hand-rouse pc) ∙ h);
    pops = λ h. f.pops (sym (is_popping-rouse pc) ∙ h);
    order = rw (is_popping-rouse pc) f.order;
    clean = f.clean;
    closed = λ h. is_done-rouse pc ∙ f.closed h;
  }

  push-Flow : (u : ℕ) → Flow q pc sp sub dis dra → Flow (q ++ u ∷ []) pc sp (sub ++ u ∷ []) dis dra
  push-Flow u f = record {
    hand = λ t h. front-append q t u (f.hand t h);
    pops = λ h. is_empty-append q u;
    order =
        ap (λ l. l ++ u ∷ []) f.order
        ∙ append_assoc dis _ _
        ∙ ap (◌++◌ dis) (append_assoc dra _ _ ∙ ap (◌++◌ dra) (sym (pending-append pc q u f.pops)));
    clean = f.clean;
    closed = f.closed;
  }

execute_locked-Flows : (s : System) (u : ℕ) → Flows s → Flows (execute_locked s u)
unfolding execute_locked
execute_locked-Flows s u f =
    if_both Flows s.go _ _ (λ _. record { flow = rouse-Flow (push-Flow u f.flow) })
      (λ _. record { flow = f.flow })

over-past : (sp : ShutdownPc) → is_over sp ≡ true → past_join sp ≡ true
over-past destroyed e = refl
over-past _ e = cc

module _ {q : List ℕ} {pc : DispatcherPc} {sp : ShutdownPc} {sub dis dra : List ℕ} where
  -- A step of the dispatcher that leaves the queue alone.
  move-Flow :
      (pc' : DispatcherPc)
      → is_popping pc ≡ false
      → is_done pc ≡ false
      → is_popping pc' ≡ false
      → ((t : ℕ) → at_hand pc' ≡ some t → front q ≡ some t)
      → Flow q pc sp sub dis dra
      → Flow q pc' sp sub dis dra
  move-Flow pc' np nd np' h f = record {
    hand = h;
    pops = λ e. cc;
    order = rw np' (rw np at f.order);
    clean = f.clean;
    closed = λ e. cc (f.closed e);
  }

  not_over : is_done pc ≡ false → Flow q pc sp sub dis dra → is_over sp ≡ false
  not_over nd f = elim (Bool-cases (is_over sp)) [
    | inl e ↦ cc (f.closed (over-past sp e))
    | inr e ↦ e
  ]

front-some : (q : List ℕ) (t : ℕ) → front q ≡ some t → q ≡ t ∷ rest q
front-some [] t h = cc
front-some (x ∷ q) t h = ground arith

set_task-Flow :
    {q : List ℕ} {sp : ShutdownPc} {sub dis dra : List ℕ} (t i : ℕ)
    → Flow q (setting t i) sp sub dis dra
    → Flow q popping sp sub (dis ++ t ∷ []) dra
set_task-Flow {q} {sp} {sub} {dis} {dra} t i f = record {
  hand = λ u h. cc;
  pops = λ _. rw (front-some q t (f.hand t refl)) refl;
  order =
      f.order
      ∙ ap (◌++◌ dis) (ap (λ l. l ++ q) none_yet ∙ front-some q t (f.hand t refl))
      ∙ sym (append_assoc dis (t ∷ []) (rest q))
      ∙ ap (λ l. (dis ++ t ∷ []) ++ (l ++ rest q)) (sym none_yet);
  clean = f.clean;
  closed = λ e. cc (f.closed e);
}
  where
    none_yet : dra ≡ []
    none_yet = f.clean (not_over refl f)

pop-Flow :
    {q : List ℕ} {sp : ShutdownPc} {sub dis dra : List ℕ}
    → Flow q popping sp sub dis dra
    → Flow (rest q) outer sp sub dis dra
pop-Flow f = record {
  hand = λ t h. cc;
  pops = λ e. cc;
  order = f.order;
  clean = f.clean;
  closed = λ e. cc (f.closed e);
}

-- A step of the destroying thread that leaves the queue and the dispatcher alone.
shift-Flow :
    {q : List ℕ} {pc : DispatcherPc} {sp : ShutdownPc} {sub dis dra : List ℕ} (sp' : ShutdownPc)
    → is_over sp ≡ false
    → (past_join sp' ≡ true → is_done pc ≡ true)
    → Flow q pc sp sub dis dra
    → Flow q pc sp' sub dis dra
shift-Flow sp' early h f = record {
  hand = f.hand;
  pops = f.pops;
  order = f.order;
  clean = λ _. f.clean early;
  closed = h;
}

drain-Flow :
    (q : List ℕ) (pc : DispatcherPc) {sub dis dra : List ℕ}
    → Flow q pc emptying sub dis dra
    → Flow [] pc destroyed sub dis (dra ++ q)
drain-Flow q done f = record {
  hand = λ t h. cc;
  pops = λ e. cc;
  order = f.order ∙ ap (◌++◌ _) (sym (append-nil _));
  clean = λ e. cc;
  closed = λ _. refl;
}
drain-Flow q _ f = absurd (false≢true (f.closed refl))
