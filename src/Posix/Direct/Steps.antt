-- ===== src/Posix/Direct/Steps.antt =====
-- posix/threadpool.cpp: every step of a ThreadPool's threads keeps the account.
use queued_thread_pool.Prelude.{
  false≢true, some-inj, ℕ, suc, ◌<◌, ◌≡◌, refl, sym, ap, Bool, Option, none, some, is_some, ltb,
  ◌==◌, count-nil, weigh-eq_zero, arith, if_both, After, After-if, After-lock, After-guarded,
  After-some, ltb→lt,
}
use queued_thread_pool.Posix.Pool.State.{WorkerPc, is_idle}
use queued_thread_pool.Posix.Pool.Worker.{check}
use queued_thread_pool.Posix.Pool.Shutdown.{has_exited}
use queued_thread_pool.Posix.Direct.State.{
  Direct, ClientPc, away, entering, scanning, setting, waiting, woken, TerminatePc, serving,
  locking, stopping, deleting, joining, clearing, telling, ended, client, terminator, move,
}
use queued_thread_pool.Posix.Direct.System.{
  finish, run, stir, begin, scan, set_task, execute, call, join, terminate, call_terminate,
  terminates, Action, worker_runs, worker_stirs, calls, client_runs, client_stirs, terminate_runs,
  step, init, Reach, start, next,
}
use queued_thread_pool.Posix.Direct.Account.{
  bears, task_of, carries, target, is_over, Balanced, Good, finish-Balanced, leave-Balanced,
  call-Balanced, refuse-Balanced, give-Balanced,
}
use queued_thread_pool.Posix.Direct.Changes.{
  empty_task, task-check, inside, inside_of, aimed_move, put-Good, move-Good, hold-Good, at-Good,
  rouse-Good, notify-Good,
}

module _ (n m : ℕ) where
  finish-Good :
      (s : Direct) (i : ℕ) (o : Option ℕ)
      → (s.workers i).task ≡ o
      → i < n
      → Good n m s
      → After (Good n m) (finish i s (s.workers i) o)
  finish-Good s i none e h g = tt
  finish-Good s i (some t) e h g = record {
    balanced =
        finish-Balanced n m s i (record (s.workers i) { task = none; pc = WorkerPc.notifying }) t h
          e refl g.balanced;
    aimed = g.aimed;
    small = g.small;
    gone = g.gone;
  }

  run-Good :
      (s : Direct) (c i : ℕ) (pc : WorkerPc)
      → i < n
      → Good n m s
      → After (Good n m) (run m c i s (s.workers i) pc)
  unfolding run
  run-Good s c i WorkerPc.starting h g =
      After-lock (Good n m) (s.workers i).monitor _ (λ e. (put-Good n m) s i _ refl g)
  run-Good s c i WorkerPc.looping h g = (put-Good n m) s i _ refl g
  run-Good s c i WorkerPc.running h g = finish-Good s i (s.workers i).task refl h g
  run-Good s c i (WorkerPc.calling u) h g = tt
  run-Good s c i WorkerPc.notifying h g = (notify-Good n m) _ c ((put-Good n m) s i _ refl g)
  run-Good s c i WorkerPc.checking h g =
      (put-Good n m) s i (check (s.workers i)) (task-check (s.workers i)) g
  run-Good s c i WorkerPc.waiting h g = tt
  run-Good s c i WorkerPc.woken h g =
      After-lock (Good n m) (s.workers i).monitor _ (λ e. (put-Good n m) s i _ refl g)
  run-Good s c i WorkerPc.leaving h g = record {
    balanced = leave-Balanced n m s i _ h refl g.balanced;
    aimed = g.aimed;
    small = g.small;
    gone = g.gone;
  }
  run-Good s c i WorkerPc.exited h g = tt

  stir-Good :
      (s : Direct) (i : ℕ) (pc : WorkerPc)
      → Good n m s
      → After (Good n m) (stir i s (s.workers i) pc)
  unfolding stir
  stir-Good s i WorkerPc.waiting g = (put-Good n m) s i _ refl g
  stir-Good s i _ g = tt

  begin-Good :
      (s : Direct) (c t : ℕ)
      → task_of (s.clients c) ≡ some t
      → c < m
      → Good n m s
      → After (Good n m) (begin s c t)
  begin-Good s c t e h g =
      After-if (Good n m) (is_some s.owner) none _ (λ o. tt)
        (λ o.
          After-if (Good n m) (s.size == 0) (some _) (some _)
            (λ z. record {
              balanced = refuse-Balanced n m s c away t h e refl g.balanced;
              aimed = (aimed_move n m) s c away (λ j k. cc) g;
              small = g.small;
              gone = g.gone;
            })
            (λ z.
              (hold-Good n m) _ (some (client c))
                ((move-Good n m) s c (scanning t 0) (sym e) (λ j k. cc) g)))

  scan-Good :
      (s : Direct) (c t i : ℕ)
      → task_of (s.clients c) ≡ some t
      → Good n m s
      → After (Good n m) (scan s c t i (s.workers i))
  scan-Good s c t i e g =
      After-if (Good n m) (ltb i s.size) _ _
        (λ h. After-lock (Good n m) (s.workers i).monitor _ (λ f.
          if_both (λ p. Good n m (move s c p)) (is_idle (s.workers i)) _ _
            (λ k.
              (move-Good n m) s c (setting t i) (sym e)
                (λ j a. (inside_of n m) s i h g j (some-inj a)) g)
            (λ k. (move-Good n m) s c (scanning t (suc i)) (sym e) (λ j a. cc) g)))
        (λ h. (hold-Good n m) _ none ((move-Good n m) s c (waiting t) (sym e) (λ j k. cc) g))

  set_task-Good :
      (s : Direct) (c t i : ℕ)
      → task_of (s.clients c) ≡ some t
      → c < m
      → i < n
      → Good n m s
      → After (Good n m) (set_task s c t i (s.workers i))
  set_task-Good s c t i e h k g =
      After-if (Good n m) (s.workers i).monitor none _ (λ o. tt)
        (λ o.
          After-if (Good n m) (is_some (s.workers i).task) (some _) (some _)
            (λ z. (move-Good n m) s c (scanning t (suc i)) (sym e) (λ j a. cc) g)
            (λ z. record {
              balanced =
                  give-Balanced n m s c away t i _ h k e refl (empty_task (s.workers i) z) refl
                    g.balanced;
              aimed = (aimed_move n m) s c away (λ j a. cc) g;
              small = g.small;
              gone = g.gone;
            }))

  execute-Good :
      (s : Direct) (c : ℕ) (p : ClientPc)
      → s.clients c ≡ p
      → c < m
      → Good n m s
      → After (Good n m) (execute c s p)
  unfolding execute
  execute-Good s c away e h g = tt
  execute-Good s c (entering t) e h g = begin-Good s c t (ap task_of e) h g
  execute-Good s c (scanning t i) e h g = scan-Good s c t i (ap task_of e) g
  execute-Good s c (setting t i) e h g =
      set_task-Good s c t i (ap task_of e) h (g.aimed c i (ap target e)) g
  execute-Good s c (waiting t) e h g = tt
  execute-Good s c (woken t) e h g = begin-Good s c t (ap task_of e) h g

  call-Good :
      (s : Direct) (c : ℕ) (p : ClientPc) (t : ℕ)
      → s.clients c ≡ p
      → c < m
      → Good n m s
      → After (Good n m) (call c s p t)
  unfolding call
  call-Good s c away t e h g = record {
    balanced = call-Balanced n m s c (entering t) t h (ap task_of e) refl g.balanced;
    aimed = (aimed_move n m) s c (entering t) (λ j k. cc) g;
    small = g.small;
    gone = g.gone;
  }
  call-Good s c _ t e h g = tt

  join-Good : (s : Direct) (i : ℕ) → Good n m s → After (Good n m) (join s i (s.workers i))
  join-Good s i g =
      After-if (Good n m) (s.workers i).alive _ _
        (λ e.
          After-if (Good n m) (has_exited (s.workers i).pc) (some _) none
            (λ h. (at-Good n m) _ (deleting (suc i)) refl ((put-Good n m) s i _ refl g)) (λ h. tt))
        (λ e. (at-Good n m) s (deleting (suc i)) refl g)

  terminate-Good :
      (s : Direct) (c : ℕ) (p : TerminatePc)
      → s.terminate_pc ≡ p
      → Good n m s
      → After (Good n m) (terminate m c s p)
  unfolding terminate
  terminate-Good s c serving e g = tt
  terminate-Good s c locking e g =
      After-lock (Good n m) (is_some s.owner) _
        (λ o. (at-Good n m) _ (stopping 0) refl ((hold-Good n m) s (some terminator) g))
  terminate-Good s c (stopping i) e g =
      After-if (Good n m) (ltb i s.size) _ _
        (λ h.
          After-lock (Good n m) (s.workers i).monitor _
            (λ k. (at-Good n m) _ (stopping (suc i)) refl ((put-Good n m) s i _ refl g)))
        (λ h. (at-Good n m) s (deleting 0) refl g)
  terminate-Good s c (deleting i) e g =
      After-if (Good n m) (ltb i s.size) _ _
        (λ h.
          After-lock (Good n m) (s.workers i).monitor _
            (λ k. (at-Good n m) _ (joining i) refl ((put-Good n m) s i _ refl g)))
        (λ h. (at-Good n m) s clearing refl g)
  terminate-Good s c (joining i) e g = join-Good s i g
  terminate-Good s c clearing e g = record {
    balanced = g.balanced;
    aimed = g.aimed;
    small = omega arith;
    gone = λ h. refl;
  }
  terminate-Good s c telling e g = (notify-Good n m) _ c record {
    balanced = g.balanced;
    aimed = g.aimed;
    small = g.small;
    gone = λ h. g.gone (ap is_over e);
  }
  terminate-Good s c ended e g = tt

  call_terminate-Good :
      (s : Direct) (p : TerminatePc) → Good n m s → After (Good n m) (call_terminate s p)
  unfolding call_terminate
  call_terminate-Good s serving g = (at-Good n m) s locking refl g
  call_terminate-Good s ended g = (at-Good n m) s locking refl g
  call_terminate-Good s _ g = tt

  step-Good : (a : Action) (s : Direct) → Good n m s → After (Good n m) (step m a s)
  unfolding step
  step-Good (worker_runs i c) s g =
      After-guarded (Good n m) (ltb i s.size) _
        (λ h. run-Good s c i (s.workers i).pc ((inside n m) s i h g) g)
  step-Good (worker_stirs i) s g =
      After-guarded (Good n m) (ltb i s.size) _ (λ h. stir-Good s i (s.workers i).pc g)
  step-Good (calls c t) s g =
      After-guarded (Good n m) (ltb c m) _
        (λ h. call-Good s c (s.clients c) t refl (ltb→lt c m h) g)
  step-Good (client_runs c) s g =
      After-guarded (Good n m) (ltb c m) _
        (λ h. execute-Good s c (s.clients c) refl (ltb→lt c m h) g)
  step-Good (client_stirs c) s g =
      After-guarded (Good n m) (ltb c m) _ (λ h. (rouse-Good n m) s c g)
  step-Good terminates s g = call_terminate-Good s s.terminate_pc g
  step-Good (terminate_runs c) s g = terminate-Good s c s.terminate_pc refl g

  init-Good : (started : ℕ → Bool) → Good n m (init n started)
  init-Good started = record {
    balanced = λ x. omega (
      arith,
      weigh-eq_zero (bears x) n (init n started).workers (λ i _. count-nil x),
      weigh-eq_zero (carries x) m (init n started).clients (λ i _. count-nil x),
      count-nil x,
    );
    aimed = λ c i e. cc;
    small = omega arith;
    gone = λ h. absurd (false≢true h);
  }

pub Reach-Good : {n m : ℕ} {started : ℕ → Bool} {s : Direct} → Reach n m started s → Good n m s
Reach-Good {n} {m} {started} start = init-Good n m started
Reach-Good {n} {m} (next a r e) = After-some (Good n m) e (step-Good n m a _ (Reach-Good r))

-- In every state that the threads of a ThreadPool of `n` task managers and its `m` clients reach: each
-- task was submitted as often as it is borne by a task manager, carried by a client in `execute`, was
-- refused, executed, or dropped, all together.
pub direct_account :
    {n m : ℕ} {started : ℕ → Bool} {s : Direct} → Reach n m started s → Balanced n m s
direct_account r = (Reach-Good r).balanced
