-- ===== src/Posix/Pool/Account.antt =====
-- The account of every task of posix/threadpool.cpp: a task that was dispatched is borne by a task
-- manager, has been executed, or was deleted by a task manager that left its loop.
pub mod Threads
use queued_thread_pool.Prelude.{
  ℕ, suc, ◌+◌, ◌≤◌, ◌<◌, ◌≡◌, refl, sym, ap, ◌∙◌, Bool, true, false, Option, none, some, List, [],
  ◌∷◌, ◌++◌, ◌&&◌, ltb, ltb→lt, arith, is_empty, is_some, option_to_list, if◌then◌else◌, if_both,
  count, count-append, count-single, count-nil, same, weigh, weigh-replace, weigh-replace_same,
  weigh-eq_zero, replace,
}
use queued_thread_pool.Posix.Pool.State.{
  Worker, WorkerPc, System, DispatcherPc, starting, outer, inner, scanning, setting, popping,
  parking, idling, asleep, roused, again, done, ShutdownPc, serving, stopping, deleting, joining,
  clearing, joining_dispatcher, emptying, destroyed, rouse, wake, execute_locked, put, is_idle,
}
use queued_thread_pool.Posix.Pool.Worker
use queued_thread_pool.Posix.Pool.System.{init}
use queued_thread_pool.Posix.Pool.After.{After, After-lock}

-- How often a task manager's `task` is `x`.
abbrev pub bears : ℕ → Worker → ℕ
bears x w = count x (option_to_list w.task)

-- The task manager to which the dispatcher is about to hand a task.
abbrev pub target : DispatcherPc → Option ℕ
target (setting t i) = some i
target _ = none

pub record Account (n size : ℕ) (ws : ℕ → Worker) (pc : DispatcherPc) (dis exe dro : List ℕ)
    : Type 0 where
  pub small : size ≤ n
  pub aimed : (i : ℕ) → target pc ≡ some i → i < n
  pub account : (x : ℕ) → count x dis ≡ weigh (bears x) n ws + count x exe + count x dro

pub record Accounts (n : ℕ) (s : System) : Type 0 where
  pub holds : Account n s.size s.workers s.dispatcher_pc s.dispatched s.executed s.dropped

pub bears-none : (x : ℕ) (w : Worker) → w.task ≡ none → bears x w ≡ 0
bears-none x w e = ap (λ o. count x (option_to_list o)) e ∙ count-nil x

bears-some : (x t : ℕ) (w : Worker) → w.task ≡ some t → bears x w ≡ count x (t ∷ [])
bears-some x t w e = ap (λ o. count x (option_to_list o)) e

pub target-rouse : (pc : DispatcherPc) → target (rouse pc) ≡ target pc
target-rouse (asleep o) = refl
target-rouse _ = refl

module _ {n size : ℕ} {ws : ℕ → Worker} {pc : DispatcherPc} {dis exe dro : List ℕ} where
  aim-Account :
      (pc' : DispatcherPc)
      → ((i : ℕ) → target pc' ≡ some i → i < n)
      → Account n size ws pc dis exe dro
      → Account n size ws pc' dis exe dro
  aim-Account pc' h a = record { small = a.small; aimed = h; account = a.account }

  rouse-Account : Account n size ws pc dis exe dro → Account n size ws (rouse pc) dis exe dro
  rouse-Account a = aim-Account (rouse pc) (λ i h. a.aimed i (sym (target-rouse pc) ∙ h)) a

  -- A task manager changes, and not its task.
  put-Account :
      (i : ℕ) (w : Worker)
      → w.task ≡ (ws i).task
      → Account n size ws pc dis exe dro
      → Account n size (replace ws i w) pc dis exe dro
  put-Account i w e a = record {
    small = a.small;
    aimed = a.aimed;
    account = λ x.
        a.account x
        ∙ ap (λ k. k + count x exe + count x dro)
            (sym (weigh-replace_same (bears x) n ws i w (ap (λ o. count x (option_to_list o)) e)));
  }

  finish-Account :
      (i t : ℕ) (w : Worker)
      → i < n
      → (ws i).task ≡ some t
      → w.task ≡ none
      → Account n size ws pc dis exe dro
      → Account n size (replace ws i w) pc dis (exe ++ t ∷ []) dro
  finish-Account i t w h e e' a = record {
    small = a.small;
    aimed = a.aimed;
    account = λ x. omega (
      arith,
      a.account x,
      weigh-replace (bears x) n ws i w h,
      count-append x exe (t ∷ []),
      bears-some x t (ws i) e,
      bears-none x w e',
    );
  }

  leave-Account :
      (i : ℕ) (w : Worker)
      → i < n
      → w.task ≡ none
      → Account n size ws pc dis exe dro
      → Account n size (replace ws i w) pc dis exe (dro ++ option_to_list (ws i).task)
  leave-Account i w h e a = record {
    small = a.small;
    aimed = a.aimed;
    account = λ x. omega (
      arith,
      a.account x,
      weigh-replace (bears x) n ws i w h,
      count-append x dro (option_to_list (ws i).task),
      bears-none x w e,
    );
  }

  set-Account :
      (i t : ℕ) (w : Worker)
      → i < n
      → (ws i).task ≡ none
      → w.task ≡ some t
      → Account n size ws pc dis exe dro
      → Account n size (replace ws i w) popping (dis ++ t ∷ []) exe dro
  set-Account i t w h e e' a = record {
    small = a.small;
    aimed = λ j h. cc;
    account = λ x. omega (
      arith,
      a.account x,
      weigh-replace (bears x) n ws i w h,
      count-append x dis (t ∷ []),
      bears-none x (ws i) e,
      bears-some x t w e',
    );
  }

execute_locked-Accounts :
    (n : ℕ) (s : System) (u : ℕ) → Accounts n s → Accounts n (execute_locked s u)
unfolding execute_locked
execute_locked-Accounts n s u a =
    if_both (Accounts n) s.go _ _ (λ _. record { holds = rouse-Account a.holds })
      (λ _. record { holds = a.holds })

init-Accounts : (n : ℕ) (started : ℕ → Bool) → Accounts n (init n started)
init-Accounts n started = record {
  holds = record {
    small = omega arith;
    aimed = λ i h. cc;
    account = λ x. omega (
      arith,
      weigh-eq_zero (bears x) n (init n started).workers (λ i _. count-nil x),
      count-nil x,
    );
  };
}

module _ (n : ℕ) (s : System) where
  finish-Accounts :
      (i : ℕ) (o : Option ℕ)
      → i < n
      → (s.workers i).task ≡ o
      → Accounts n s
      → After (Accounts n) (Worker.finish i s (s.workers i) o)
  unfolding Worker.finish
  finish-Accounts i none h e a = tt
  finish-Accounts i (some t) h e a = record { holds = finish-Account i t _ h e refl a.holds }

  run-Accounts :
      (i : ℕ) (pc : WorkerPc)
      → i < n
      → Accounts n s
      → After (Accounts n) (Worker.run i s (s.workers i) pc)
  unfolding Worker.run
  run-Accounts i WorkerPc.starting h a =
      After-lock (Accounts n) (s.workers i).monitor _
        (λ _. record { holds = put-Account i _ refl a.holds })
  run-Accounts i WorkerPc.looping h a = record { holds = put-Account i _ refl a.holds }
  run-Accounts i WorkerPc.running h a = finish-Accounts i (s.workers i).task h refl a
  run-Accounts i (WorkerPc.calling u) h a = After-lock (Accounts n) (is_some s.owner) _ (λ _.
      execute_locked-Accounts n (put s i _) u (record { holds = put-Account i _ refl a.holds }))
  run-Accounts i WorkerPc.notifying h a = record {
    holds = rouse-Account (put-Account i _ refl a.holds);
  }
  run-Accounts i WorkerPc.checking h a = record { holds = put-Account i _ (ground arith) a.holds }
  run-Accounts i WorkerPc.waiting h a = tt
  run-Accounts i WorkerPc.woken h a =
      After-lock (Accounts n) (s.workers i).monitor _
        (λ _. record { holds = put-Account i _ refl a.holds })
  run-Accounts i WorkerPc.leaving h a = record { holds = leave-Account i _ h refl a.holds }
  run-Accounts i WorkerPc.exited h a = tt

  call-Accounts :
      (i : ℕ) (pc : WorkerPc) (u : ℕ)
      → Accounts n s
      → After (Accounts n) (Worker.call i s (s.workers i) pc u)
  unfolding Worker.call
  call-Accounts i WorkerPc.running u a = record { holds = put-Account i _ refl a.holds }
  call-Accounts i _ u a = tt

  worker_stir-Accounts :
      (i : ℕ) (pc : WorkerPc) → Accounts n s → After (Accounts n) (Worker.stir i s (s.workers i) pc)
  unfolding Worker.stir
  worker_stir-Accounts i WorkerPc.waiting a = record { holds = put-Account i _ refl a.holds }
  worker_stir-Accounts i _ a = tt
