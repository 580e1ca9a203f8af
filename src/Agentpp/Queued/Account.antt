-- ===== src/Agentpp/Queued/Account.antt =====
-- threadpool.cpp, class QueuedThreadPool: where the tasks are.
use queued_thread_pool.Prelude.{
  ℕ, zero, suc, ◌+◌, ◌≡◌, ap, Bool, some, List, [], ◌∷◌, arith, option_to_list, count, count-append,
  count-cons, inl, inr, Option-cases,
}
use queued_thread_pool.Agentpp.Queued.{Executor, Call, executes, pick, QueuedPool, queue, begun}

-- The tasks with which `execute` is called.
pub asked : List Call → List ℕ
asked [] = []
asked (executes t ∷ cs) = t ∷ asked cs
asked (_ ∷ cs) = asked cs

pub count-pick :
    (x k : ℕ) (l : List ℕ) (t : ℕ) (r : List ℕ)
    → pick k l ≡ some (t, r)
    → count x l ≡ count x (t ∷ []) + count x r
unfolding pick
count-pick x k [] t r h = cc
count-pick x zero (y ∷ ys) t r h = ground (arith, h, count-cons x y ys)
count-pick x (suc k) (y ∷ ys) t r h = elim (Option-cases (pick k ys)) [
  | inl e ↦ ground (arith, h, e)
  | inr ((z, zs), e) ↦
      ground (arith, h, e, count-pick x k ys z zs e, count-cons x y ys, count-cons x y zs)
]

module _ (p : Executor) where
  open p use {
    Executing, waiting, closed, next, opened, submit, submitted, close, try_executing_one, take,
    waiting-opened, submit_closed, submit_open, waiting-submitted, waiting-close, waiting-tried,
    waiting-take,
  }

  -- How often `x` is with the executor, or has been started.
  abbrev pub held : ℕ → QueuedPool p → ℕ
  held x s = count x s.started + count x (queue p s.ea)

  -- How often `x` is anywhere.
  abbrev pub total : ℕ → QueuedPool p → ℕ
  total x s = count x s.refused + count x s.rejected + count x s.calling + held x s

  pub begun-held :
      (s : QueuedPool p) (e e' : Executing)
      → s.ea ≡ some e
      → ((x : ℕ) → count x (waiting e) ≡ count x (option_to_list (next e)) + count x (waiting e'))
      → (x : ℕ) → held x (begun p e e' s) ≡ held x s
  begun-held s e e' h w x = omega (
    arith,
    w x,
    count-append x s.started (option_to_list (next e)),
    ap (λ o. count x (queue p o)) h,
  )

  module _ (x : ℕ) (s : QueuedPool p) where
    abbrev Kept : QueuedPool p → Type 0
    Kept u = total x u ≡ total x s

    abbrev Answered : Bool × QueuedPool p → Type 0
    Answered r = Kept r.1
