-- ===== src/Agentpp/Pool/Invariant.antt =====
-- What every step of threadpool.cpp's ThreadPool keeps: the account of the tasks, the state of each
-- task manager, and who holds the pool's mutex. Child modules for the threads' steps.
pub mod Threads
pub mod Steps
use queued_thread_pool.Prelude.{
  ℕ, ◌+◌, ◌<◌, ◌≡◌, refl, sym, ap, ◌∙◌, Bool, true, false, Option, none, some, List, [], ◌∷◌, ◌++◌,
  ◌==◌, ◌&&◌, not, arith, is_some, option_to_list, if◌then◌else◌, if_both, replace, count,
  count-append, count-single, count-nil, weigh, weigh-replace, weigh-replace_same, weigh-eq_zero,
}
use queued_thread_pool.Agentpp.Pool.State.{
  Manager, ManagerPc, Pool, ClientPc, away, entering, scanning, setting, waiting, ShutdownPc,
  serving, stopping, deleting, joining, destroyed, Holder, client, terminator,
}
use queued_thread_pool.Agentpp.Pool.Shutdown.{has_exited}
use queued_thread_pool.Agentpp.Pool.System.{init}

-- How often a task manager's `task` is `x`.
abbrev pub bears : ℕ → Manager → ℕ
bears x m = count x (option_to_list m.task)

-- The thread is inside the lock of `TaskManager::run`, and not in its wait.
abbrev pub working : ManagerPc → Bool
working ManagerPc.starting = false
working ManagerPc.waiting = false
working ManagerPc.woken = false
working ManagerPc.ending = false
working ManagerPc.exited = false
working _ = true

abbrev pub is_waiting : ManagerPc → Bool
is_waiting ManagerPc.waiting = true
is_waiting _ = false

-- The thread is past the loop of `TaskManager::run`.
abbrev pub is_past : ManagerPc → Bool
is_past ManagerPc.leaving = true
is_past ManagerPc.ending = true
is_past ManagerPc.exited = true
is_past _ = false

-- What holds of each task manager.
pub record Sound (m : Manager) : Type 0 where
  pub monitored : m.monitor ≡ working m.pc
  pub calm : is_waiting m.pc && is_some m.task ≡ false
  pub live : m.alive ≡ not (has_exited m.pc)
  pub told : is_past m.pc && m.go ≡ false

-- The client is inside the lock of `ThreadPool::execute`, and not in its wait.
abbrev pub inside : ClientPc → Bool
inside (scanning t i) = true
inside (setting t i) = true
inside _ = false

abbrev pub target : ClientPc → Option ℕ
target (setting t i) = some i
target _ = none

abbrev pub is_stopping : ShutdownPc → Bool
is_stopping (stopping i) = true
is_stopping _ = false

abbrev pub is_client : Option Holder → ℕ → Bool
is_client (some (client d)) c = d == c
is_client _ c = false

abbrev pub is_terminator : Option Holder → Bool
is_terminator (some terminator) = true
is_terminator _ = false

-- Who holds the pool's mutex, by where the threads stand.
pub record Order (n : ℕ) (o : Option Holder) (clients : ℕ → ClientPc) (sp : ShutdownPc)
    : Type 0 where
  pub held : (c : ℕ) → inside (clients c) ≡ is_client o c
  pub stopped : is_stopping sp ≡ is_terminator o
  pub aimed : (c i : ℕ) → target (clients c) ≡ some i → i < n

pub record Account (n size : ℕ) (ms : ℕ → Manager) (acc exe dro : List ℕ) : Type 0 where
  pub full : size ≡ n
  pub account : (x : ℕ) → count x acc ≡ weigh (bears x) n ms + count x exe + count x dro

pub record Good (n : ℕ) (s : Pool) : Type 0 where
  pub order : Order n s.owner s.clients s.shutdown_pc
  pub sound : (i : ℕ) → Sound (s.managers i)
  pub accounted : Account n s.size s.managers s.accepted s.executed s.dropped

pub init-Good : (v : Bool) (n : ℕ) → Good n (init v n)
init-Good v n = record {
  order = record { held = λ c. refl; stopped = refl; aimed = λ c i h. cc };
  sound = λ i. record { monitored = refl; calm = refl; live = refl; told = refl };
  accounted = record {
    full = refl;
    account = λ x.
        omega
          (arith, weigh-eq_zero (bears x) n (init v n).managers (λ i _. count-nil x), count-nil x);
  };
}

pub replace-Sound :
    (ms : ℕ → Manager) (i : ℕ) (m : Manager)
    → Sound m
    → ((j : ℕ) → Sound (ms j))
    → (j : ℕ) → Sound (replace ms i m j)
replace-Sound ms i m p q j = if_both Sound _ m (ms j) (λ _. p) (λ _. q j)

bears-none : (x : ℕ) (m : Manager) → m.task ≡ none → bears x m ≡ 0
bears-none x m e = ap (λ o. count x (option_to_list o)) e ∙ count-nil x

module _ {n size : ℕ} {ms : ℕ → Manager} {acc exe dro : List ℕ} where
  -- A task manager changes, and not its task.
  pub put-Account :
      (i : ℕ) (m : Manager)
      → m.task ≡ (ms i).task
      → Account n size ms acc exe dro
      → Account n size (replace ms i m) acc exe dro
  put-Account i m e a = record {
    full = a.full;
    account = λ x.
        a.account x
        ∙ ap (λ k. k + count x exe + count x dro)
            (sym (weigh-replace_same (bears x) n ms i m (ap (λ o. count x (option_to_list o)) e)));
  }

  -- A task manager has executed its task.
  pub finish-Account :
      (i : ℕ) (m : Manager)
      → i < n
      → m.task ≡ none
      → Account n size ms acc exe dro
      → Account n size (replace ms i m) acc (exe ++ option_to_list (ms i).task) dro
  finish-Account i m h e a = record {
    full = a.full;
    account = λ x. omega (
      arith,
      a.account x,
      weigh-replace (bears x) n ms i m h,
      count-append x exe (option_to_list (ms i).task),
      bears-none x m e,
    );
  }

  -- A task manager has deleted its task after the loop.
  pub leave-Account :
      (i : ℕ) (m : Manager)
      → i < n
      → m.task ≡ none
      → Account n size ms acc exe dro
      → Account n size (replace ms i m) acc exe (dro ++ option_to_list (ms i).task)
  leave-Account i m h e a = record {
    full = a.full;
    account = λ x. omega (
      arith,
      a.account x,
      weigh-replace (bears x) n ms i m h,
      count-append x dro (option_to_list (ms i).task),
      bears-none x m e,
    );
  }

  -- A task manager takes a task.
  pub take-Account :
      (i t : ℕ) (m : Manager)
      → i < n
      → is_some (ms i).task ≡ false
      → m.task ≡ some t
      → Account n size ms acc exe dro
      → Account n size (replace ms i m) (acc ++ t ∷ []) exe dro
  take-Account i t m h e e' a = record {
    full = a.full;
    account = λ x. omega (
      arith,
      a.account x,
      weigh-replace (bears x) n ms i m h,
      count-append x acc (t ∷ []),
      bears-none x (ms i) (ground arith),
      ap (λ o. count x (option_to_list o)) e',
    );
  }
