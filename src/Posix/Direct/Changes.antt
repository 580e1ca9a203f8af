-- ===== src/Posix/Direct/Changes.antt =====
-- posix/threadpool.cpp: the single changes that the steps of a ThreadPool's threads make, and the account.
use queued_thread_pool.Prelude.{
  false≢true, ℕ, ◌<◌, ◌≡◌, sym, ◌∙◌, subst, true, false, Option, none, some, is_some, ltb, ◌==◌,
  replace, arith, if_both, After, After-if, After-lock,
}
use queued_thread_pool.Posix.Pool.State.{Worker}
use queued_thread_pool.Posix.Pool.Worker.{check}
use queued_thread_pool.Posix.Direct.State.{
  Direct, ClientPc, TerminatePc, Holder, put, move, rouse, notify, is_waiting, any_waiting,
}
use queued_thread_pool.Posix.Direct.Account.{
  task_of, target, is_over, task_of-rouse, target-rouse, Good, put-Balanced, move-Balanced,
}

pub empty_task : (w : Worker) → is_some w.task ≡ false → w.task ≡ none
empty_task w h = ground arith

pub task-check : (w : Worker) → (check w).task ≡ w.task
task-check w = ground arith

module _ (n m : ℕ) where
  pub inside : (s : Direct) (i : ℕ) → ltb i s.size ≡ true → Good n m s → i < n
  inside s i h g = ground (arith, h, g.small)

  pub inside_of : (s : Direct) (i : ℕ) → ltb i s.size ≡ true → Good n m s → (j : ℕ) → i ≡ j → j < n
  inside_of s i h g j e = subst (λ k. k < n) e (inside s i h g)

  pub aimed_move :
      (s : Direct) (c : ℕ) (p : ClientPc)
      → ((j : ℕ) → target p ≡ some j → j < n)
      → Good n m s
      → (d i : ℕ) → target (replace s.clients c p d) ≡ some i
      → i < n
  aimed_move s c p h g d i =
      if_both (λ q. target q ≡ some i → i < n) (c == d) p (s.clients d) (λ e. h i)
        (λ e. g.aimed d i)

  pub put-Good :
      (s : Direct) (i : ℕ) (w : Worker)
      → w.task ≡ (s.workers i).task
      → Good n m s
      → Good n m (put s i w)
  put-Good s i w e g = record {
    balanced = put-Balanced n m s i w e g.balanced;
    aimed = g.aimed;
    small = g.small;
    gone = g.gone;
  }

  pub move-Good :
      (s : Direct) (c : ℕ) (p : ClientPc)
      → task_of p ≡ task_of (s.clients c)
      → ((j : ℕ) → target p ≡ some j → j < n)
      → Good n m s
      → Good n m (move s c p)
  move-Good s c p e h g = record {
    balanced = move-Balanced n m s c p e g.balanced;
    aimed = aimed_move s c p h g;
    small = g.small;
    gone = g.gone;
  }

  pub hold-Good : (s : Direct) (o : Option Holder) → Good n m s → Good n m (record s { owner = o })
  hold-Good s o g = record {
    balanced = g.balanced;
    aimed = g.aimed;
    small = g.small;
    gone = g.gone;
  }

  pub at-Good :
      (s : Direct) (p : TerminatePc)
      → is_over p ≡ false
      → Good n m s
      → Good n m (record s { terminate_pc = p })
  at-Good s p e g = record {
    balanced = g.balanced;
    aimed = g.aimed;
    small = g.small;
    gone = λ h. absurd (false≢true (sym e ∙ h));
  }

  pub rouse-Good : (s : Direct) (c : ℕ) → Good n m s → Good n m (move s c (rouse (s.clients c)))
  rouse-Good s c g =
      move-Good s c (rouse (s.clients c)) (task_of-rouse (s.clients c))
        (λ j e. g.aimed c j (sym (target-rouse (s.clients c)) ∙ e)) g

  pub notify-Good : (s : Direct) (c : ℕ) → Good n m s → After (Good n m) (notify m c s)
  notify-Good s c g =
      After-if (Good n m) (is_waiting (s.clients c)) _ _ (λ h. rouse-Good s c g)
        (λ h. After-lock (Good n m) (any_waiting m s.clients) s (λ k. g))
