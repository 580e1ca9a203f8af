-- ===== src/Agentpp/Queued/Plain.antt =====
-- An executor that is nothing but its tasks and its state keeps the documented laws of
-- boost::basic_thread_pool. It takes the first task first.
use queued_thread_pool.Prelude.{
  ℕ, ◌+◌, ◌≡◌, refl, Bool, true, false, Option, none, some, List, [], ◌∷◌, ◌++◌, is_some, front,
  rest, option_to_list, if◌then◌else◌, arith, count, count-append, count-cons, count-nil,
}
use queued_thread_pool.Agentpp.Queued.{Executor}

pub record PlainExecutor : Type 0 where
  pub tasks : List ℕ
  pub over : Bool

abbrev pub plain_submitted : ℕ → PlainExecutor → PlainExecutor
plain_submitted t e = record e { tasks = e.tasks ++ t ∷ [] }

abbrev pub plain_submit : ℕ → PlainExecutor → Option PlainExecutor
plain_submit t e = if e.over then none else some (plain_submitted t e)

abbrev pub plain_take : PlainExecutor → PlainExecutor
plain_take e = record e { tasks = rest e.tasks }

pub plain_submit-closed : (t : ℕ) (e : PlainExecutor) → e.over ≡ true → plain_submit t e ≡ none
plain_submit-closed t e h = ground arith

pub plain_submit-open :
    (t : ℕ) (e : PlainExecutor) → e.over ≡ false → plain_submit t e ≡ some (plain_submitted t e)
plain_submit-open t e h = ground arith

pub count-taken :
    (q : List ℕ) (x : ℕ) → count x q ≡ count x (option_to_list (front q)) + count x (rest q)
count-taken [] x = omega (arith, count-nil x)
count-taken (y ∷ q) x = count-cons x y q

abbrev pub plain_executor : Executor
plain_executor = record {
  Executing = PlainExecutor;
  waiting = λ e. e.tasks;
  closed = λ e. e.over;
  next = λ e. front e.tasks;
  opened = λ n. record { tasks = []; over = false };
  submitted = plain_submitted;
  submit = plain_submit;
  close = λ e. record e { over = true };
  try_executing_one = λ e. (is_some (front e.tasks), plain_take e);
  take = plain_take;
  waiting-opened = λ n. refl;
  submit_closed = plain_submit-closed;
  submit_open = plain_submit-open;
  waiting-submitted = λ t e x. omega (arith, count-append x e.tasks (t ∷ []));
  waiting-close = λ e. refl;
  closed-close = λ e. refl;
  waiting-tried = λ e x. count-taken e.tasks x;
  closed-tried = λ e. refl;
  waiting-take = λ e x. count-taken e.tasks x;
  closed-take = λ e. refl;
}
