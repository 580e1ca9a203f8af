-- ===== src/Posix/Pool/Lifecycle.antt =====
-- The task managers of posix/threadpool.cpp from their start to the end of `~QueuedThreadPool`.
pub mod Threads
pub mod Pool
use queued_thread_pool.Prelude.{
  ℕ, zero, suc, ◌<◌, ◌≤◌, ◌≡◌, refl, sym, ap, ◌∙◌, Bool, true, false, Option, none, some, arith,
  replace, is_some, if◌then◌else◌, if_both,
}
use queued_thread_pool.Posix.Pool.State.{
  Worker, WorkerPc, System, DispatcherPc, ShutdownPc, serving, stopping, deleting, joining,
  clearing, joining_dispatcher, emptying, destroyed, rouse, execute_locked,
}
use queued_thread_pool.Posix.Pool.Shutdown.{has_exited}
use queued_thread_pool.Posix.Pool.System.{init}
use queued_thread_pool.Posix.Pool.Account.{target, target-rouse}
use queued_thread_pool.Posix.Pool.Locks.{is_serving}

-- The thread is past its loop.
abbrev pub past_loop : WorkerPc → Bool
past_loop WorkerPc.leaving = true
past_loop WorkerPc.exited = true
past_loop _ = false

-- How many of the `n` task managers `EmptyTaskList` has joined.
abbrev pub joined_count : ℕ → ShutdownPc → ℕ
joined_count n serving = 0
joined_count n (stopping i) = 0
joined_count n (deleting i) = i
joined_count n (joining i) = i
joined_count n _ = n

abbrev pub uncleared : ShutdownPc → Bool
uncleared joining_dispatcher = false
uncleared emptying = false
uncleared destroyed = false
uncleared _ = true

-- What holds of one task manager while the destroying thread stands at `sp`.
pub record Sound (sp : ShutdownPc) (w : Worker) : Type 0 where
  pub bare : has_exited w.pc ≡ true → w.task ≡ none
  pub ended : w.alive ≡ false → has_exited w.pc ≡ true
  pub told : past_loop w.pc ≡ true → w.alive ≡ true → w.go ≡ false
  pub fresh : is_serving sp ≡ true → w.go ≡ true

pub record Life (n size : ℕ) (ws : ℕ → Worker) (d : DispatcherPc) (sp : ShutdownPc) : Type 0 where
  pub each : (i : ℕ) → Sound sp (ws i)
  pub chosen : (i : ℕ) → target d ≡ some i → (ws i).alive ≡ true
  pub joined : (i : ℕ) → i < joined_count n sp → has_exited (ws i).pc ≡ true
  pub sized : uncleared sp ≡ true → size ≡ n

pub record Lives (n : ℕ) (s : System) : Type 0 where
  pub life : Life n s.size s.workers s.dispatcher_pc s.shutdown_pc

replace_all :
    (P : Worker → Type 0) (ws : ℕ → Worker) (i : ℕ) (w : Worker)
    → P w
    → ((j : ℕ) → P (ws j))
    → (j : ℕ) → P (replace ws i w j)
replace_all P ws i w p q j = if_both P _ w (ws j) (λ _. p) (λ _. q j)

module _ {n size : ℕ} {ws : ℕ → Worker} {d : DispatcherPc} {sp : ShutdownPc} where
  rouse-Life : Life n size ws d sp → Life n size ws (rouse d) sp
  rouse-Life l = record {
    each = l.each;
    chosen = λ i h. l.chosen i (sym (target-rouse d) ∙ h);
    joined = l.joined;
    sized = l.sized;
  }

  aim-Life :
      (d' : DispatcherPc)
      → ((i : ℕ) → target d' ≡ some i → (ws i).alive ≡ true)
      → Life n size ws d sp
      → Life n size ws d' sp
  aim-Life d' h l = record { each = l.each; chosen = h; joined = l.joined; sized = l.sized }

  -- A task manager changes; it does not come back from its end.
  put-Life :
      (i : ℕ) (w : Worker)
      → Sound sp w
      → w.alive ≡ (ws i).alive
      → (has_exited (ws i).pc ≡ true → has_exited w.pc ≡ true)
      → Life n size ws d sp
      → Life n size (replace ws i w) d sp
  put-Life i w ok same_life stays l = record {
    each = replace_all (Sound sp) ws i w ok l.each;
    chosen = λ j h. ground (arith, l.chosen j);
    joined = λ j h. ground (arith, l.joined j, stays);
    sized = l.sized;
  }

  -- The destroying thread moves on.
  shift-Life :
      (sp' : ShutdownPc)
      → is_serving sp' ≡ false
      → ((i : ℕ) → i < joined_count n sp' → has_exited (ws i).pc ≡ true)
      → (uncleared sp' ≡ true → size ≡ n)
      → Life n size ws d sp
      → Life n size ws d sp'
  shift-Life sp' e h k l = record {
    each = λ i. record {
      bare = (l.each i).bare;
      ended = (l.each i).ended;
      told = (l.each i).told;
      fresh = λ x. cc;
    };
    chosen = l.chosen;
    joined = h;
    sized = k;
  }

execute_locked-Lives : (n : ℕ) (s : System) (u : ℕ) → Lives n s → Lives n (execute_locked s u)
unfolding execute_locked
execute_locked-Lives n s u l =
    if_both (Lives n) s.go _ _ (λ _. record { life = rouse-Life l.life })
      (λ _. record { life = l.life })

init-Lives : (n : ℕ) (started : ℕ → Bool) → Lives n (init n started)
init-Lives n started = record {
  life = record {
    each = λ i. record {
      bare = λ _. refl;
      ended = λ e. ground arith;
      told = λ e f. ground arith;
      fresh = λ _. refl;
    };
    chosen = λ i h. cc;
    joined = λ i h. absurd (omega arith);
    sized = λ _. refl;
  };
}
