-- ===== src/Posix/Direct/Account.antt =====
-- posix/threadpool.cpp: where the tasks are that the clients of a ThreadPool have submitted.
use queued_thread_pool.Prelude.{
  ℕ, ◌+◌, ◌≤◌, ◌<◌, ◌≡◌, refl, ap, Bool, true, false, Option, none, some, [], ◌∷◌, ◌++◌,
  option_to_list, count, count-append, count-nil, weigh, weigh-replace, weigh-replace_same, arith,
}
use queued_thread_pool.Posix.Pool.State.{Worker}
use queued_thread_pool.Posix.Direct.State.{
  Direct, ClientPc, away, entering, scanning, setting, waiting, woken, TerminatePc, telling, ended,
  put, move, rouse,
}

-- How often a task manager's `task` is `x`, and a client's.
abbrev pub bears : ℕ → Worker → ℕ
bears x w = count x (option_to_list w.task)

abbrev pub task_of : ClientPc → Option ℕ
task_of away = none
task_of (entering t) = some t
task_of (scanning t i) = some t
task_of (setting t i) = some t
task_of (waiting t) = some t
task_of (woken t) = some t

abbrev pub carries : ℕ → ClientPc → ℕ
carries x p = count x (option_to_list (task_of p))

abbrev pub target : ClientPc → Option ℕ
target (setting t i) = some i
target _ = none

abbrev pub is_over : TerminatePc → Bool
is_over telling = true
is_over ended = true
is_over _ = false

pub task_of-rouse : (p : ClientPc) → task_of (rouse p) ≡ task_of p
task_of-rouse away = refl
task_of-rouse (entering t) = refl
task_of-rouse (scanning t i) = refl
task_of-rouse (setting t i) = refl
task_of-rouse (waiting t) = refl
task_of-rouse (woken t) = refl

pub target-rouse : (p : ClientPc) → target (rouse p) ≡ target p
target-rouse away = refl
target-rouse (entering t) = refl
target-rouse (scanning t i) = refl
target-rouse (setting t i) = refl
target-rouse (waiting t) = refl
target-rouse (woken t) = refl

module _ (n m : ℕ) where
  -- Every task submitted is borne by a task manager, is carried by a client that is in its call, was
  -- refused, executed, or dropped.
  abbrev pub Balanced : Direct → Type 0
  Balanced s =
      (x : ℕ)
      → count x s.submitted
        ≡ weigh (bears x) n s.workers
          + weigh (carries x) m s.clients
          + count x s.refused
          + count x s.executed
          + count x s.dropped

  pub record Good (s : Direct) : Type 0 where
    pub balanced : Balanced s
    pub aimed : (c i : ℕ) → target (s.clients c) ≡ some i → i < n
    pub small : s.size ≤ n
    pub gone : is_over s.terminate_pc ≡ true → s.size ≡ 0

  -- The account, when task manager `i` changes
  module _ (s : Direct) (i : ℕ) (w : Worker) where
    pub put-Balanced : w.task ≡ (s.workers i).task → Balanced s → Balanced (put s i w)
    put-Balanced e b x = omega (
      arith,
      b x,
      weigh-replace_same (bears x) n s.workers i w (ap (λ o. count x (option_to_list o)) e),
    )

    pub finish-Balanced :
        (t : ℕ)
        → i < n
        → (s.workers i).task ≡ some t
        → w.task ≡ none
        → Balanced s
        → Balanced (record (put s i w) { executed = s.executed ++ t ∷ [] })
    finish-Balanced t h e f b x = omega (
      arith,
      b x,
      weigh-replace (bears x) n s.workers i w h,
      count-append x s.executed (t ∷ []),
      ap (λ o. count x (option_to_list o)) e,
      ap (λ o. count x (option_to_list o)) f,
      count-nil x,
    )

    pub leave-Balanced :
        i < n
        → w.task ≡ none
        → Balanced s
        → Balanced (record (put s i w) { dropped = s.dropped ++ option_to_list (s.workers i).task })
    leave-Balanced h f b x = omega (
      arith,
      b x,
      weigh-replace (bears x) n s.workers i w h,
      count-append x s.dropped (option_to_list (s.workers i).task),
      ap (λ o. count x (option_to_list o)) f,
      count-nil x,
    )

  -- The account, when client `c` changes
  module _ (s : Direct) (c : ℕ) (p : ClientPc) where
    pub move-Balanced : task_of p ≡ task_of (s.clients c) → Balanced s → Balanced (move s c p)
    move-Balanced e b x = omega (
      arith,
      b x,
      weigh-replace_same (carries x) m s.clients c p (ap (λ o. count x (option_to_list o)) e),
    )

    pub call-Balanced :
        (t : ℕ)
        → c < m
        → task_of (s.clients c) ≡ none
        → task_of p ≡ some t
        → Balanced s
        → Balanced (record (move s c p) { submitted = s.submitted ++ t ∷ [] })
    call-Balanced t h e f b x = omega (
      arith,
      b x,
      weigh-replace (carries x) m s.clients c p h,
      count-append x s.submitted (t ∷ []),
      ap (λ o. count x (option_to_list o)) e,
      ap (λ o. count x (option_to_list o)) f,
      count-nil x,
    )

    pub refuse-Balanced :
        (t : ℕ)
        → c < m
        → task_of (s.clients c) ≡ some t
        → task_of p ≡ none
        → Balanced s
        → Balanced (record (move s c p) { refused = s.refused ++ t ∷ [] })
    refuse-Balanced t h e f b x = omega (
      arith,
      b x,
      weigh-replace (carries x) m s.clients c p h,
      count-append x s.refused (t ∷ []),
      ap (λ o. count x (option_to_list o)) e,
      ap (λ o. count x (option_to_list o)) f,
      count-nil x,
    )

    -- The client gives its task to task manager `i`.
    pub give-Balanced :
        (t i : ℕ) (w : Worker)
        → c < m
        → i < n
        → task_of (s.clients c) ≡ some t
        → task_of p ≡ none
        → (s.workers i).task ≡ none
        → w.task ≡ some t
        → Balanced s
        → Balanced (put (move s c p) i w)
    give-Balanced t i w h k e f o o' b x = omega (
      arith,
      b x,
      weigh-replace (carries x) m s.clients c p h,
      weigh-replace (bears x) n s.workers i w k,
      ap (λ y. count x (option_to_list y)) e,
      ap (λ y. count x (option_to_list y)) f,
      ap (λ y. count x (option_to_list y)) o,
      ap (λ y. count x (option_to_list y)) o',
    )
