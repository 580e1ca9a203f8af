-- ===== src/Posix/Pool/Lifecycle/Threads.antt =====
-- Every step of every thread keeps what holds of the task managers' lives.
use queued_thread_pool.Prelude.{
  ℕ, ◌≡◌, refl, sym, ◌∙◌, true, false, Option, none, some, arith, is_some,
}
use queued_thread_pool.Posix.Pool.State.{Worker, WorkerPc, System, ShutdownPc, put, wake}
use queued_thread_pool.Posix.Pool.Worker
use queued_thread_pool.Posix.Pool.Shutdown.{has_exited}
use queued_thread_pool.Posix.Pool.After.{After, After-lock}
use queued_thread_pool.Posix.Pool.Lifecycle.{
  past_loop, Sound, Lives, rouse-Life, put-Life, execute_locked-Lives,
}

-- A thread that is not past its loop may move anywhere but there.
inside-Sound :
    {sp : ShutdownPc} (w v : Worker)
    → Sound sp w
    → has_exited w.pc ≡ false
    → past_loop v.pc ≡ false
    → has_exited v.pc ≡ false
    → v.alive ≡ w.alive
    → v.go ≡ w.go
    → Sound sp v
inside-Sound w v ok out e e' a g = record {
  bare = λ h. cc;
  ended = λ h. cc (ok.ended (sym a ∙ h));
  told = λ h. cc;
  fresh = λ h. g ∙ ok.fresh h;
}

pub wake-past_loop : (p : WorkerPc) → past_loop (wake p) ≡ past_loop p
wake-past_loop WorkerPc.waiting = refl
wake-past_loop _ = refl

pub wake-has_exited : (p : WorkerPc) → has_exited (wake p) ≡ has_exited p
wake-has_exited WorkerPc.waiting = refl
wake-has_exited _ = refl

pub exited-past : (p : WorkerPc) → has_exited p ≡ true → past_loop p ≡ true
exited-past WorkerPc.exited h = refl
exited-past _ h = cc

module _ (n : ℕ) (s : System) (i : ℕ) where
  -- The common case of a step of a task manager's thread.
  inside-Life :
      (v : Worker)
      → has_exited (s.workers i).pc ≡ false
      → past_loop v.pc ≡ false
      → has_exited v.pc ≡ false
      → v.alive ≡ (s.workers i).alive
      → v.go ≡ (s.workers i).go
      → Lives n s
      → Lives n (put s i v)
  inside-Life v out e e' a g l = record {
    life =
        put-Life i v (inside-Sound (s.workers i) v (l.life.each i) out e e' a g) a (λ h. cc) l.life;
  }

  finish-Lives :
      (o : Option ℕ)
      → has_exited (s.workers i).pc ≡ false
      → Lives n s
      → After (Lives n) (Worker.finish i s (s.workers i) o)
  unfolding Worker.finish
  finish-Lives none out l = tt
  finish-Lives (some t) out l = record { life = (inside-Life _ out refl refl refl refl l).life }

  loop-Lives :
      has_exited (s.workers i).pc ≡ false
      → Lives n s
      → After (Lives n) (Worker.run i s (s.workers i) WorkerPc.looping)
  unfolding Worker.run
  loop-Lives out l = record {
    life =
        put-Life i _
          (record {
            bare = λ h. ground arith;
            ended = λ h. cc (ok.ended h);
            told = λ h a. ground arith;
            fresh = ok.fresh;
          })
          refl (λ h. cc) l.life;
  }
    where
      ok : Sound s.shutdown_pc (s.workers i)
      ok = l.life.each i

  leave-Lives :
      (s.workers i).pc ≡ WorkerPc.leaving
      → Lives n s
      → After (Lives n) (Worker.run i s (s.workers i) WorkerPc.leaving)
  unfolding Worker.run
  leave-Lives here l = record {
    life =
        put-Life i (record (s.workers i) { task = none; monitor = false; pc = WorkerPc.exited })
          (record {
            bare = λ h. refl;
            ended = λ h. refl;
            told = λ h a. (l.life.each i).told (rw here refl) a;
            fresh = (l.life.each i).fresh;
          })
          refl (λ h. refl) l.life;
  }

  pub run-Lives :
      (pc : WorkerPc)
      → (s.workers i).pc ≡ pc
      → Lives n s
      → After (Lives n) (Worker.run i s (s.workers i) pc)
  unfolding Worker.run
  run-Lives WorkerPc.starting e l =
      After-lock (Lives n) (s.workers i).monitor _
        (λ _. inside-Life _ (rw e refl) refl refl refl refl l)
  run-Lives WorkerPc.looping e l = loop-Lives (rw e refl) l
  run-Lives WorkerPc.running e l = finish-Lives (s.workers i).task (rw e refl) l
  run-Lives (WorkerPc.calling u) e l =
      After-lock (Lives n) (is_some s.owner) _ (λ _.
        execute_locked-Lives n (put s i _) u (inside-Life _ (rw e refl) refl refl refl refl l))
  run-Lives WorkerPc.notifying e l = record {
    life = rouse-Life (inside-Life _ (rw e refl) refl refl refl refl l).life;
  }
  run-Lives WorkerPc.checking e l =
      inside-Life _ (rw e refl) (ground arith) (ground arith) (ground arith) (ground arith) l
  run-Lives WorkerPc.waiting e l = tt
  run-Lives WorkerPc.woken e l =
      After-lock (Lives n) (s.workers i).monitor _
        (λ _. inside-Life _ (rw e refl) refl refl refl refl l)
  run-Lives WorkerPc.leaving e l = leave-Lives e l
  run-Lives WorkerPc.exited e l = tt

  pub call-Lives :
      (pc : WorkerPc) (u : ℕ)
      → (s.workers i).pc ≡ pc
      → Lives n s
      → After (Lives n) (Worker.call i s (s.workers i) pc u)
  unfolding Worker.call
  call-Lives WorkerPc.running u e l = inside-Life _ (rw e refl) refl refl refl refl l
  call-Lives _ u e l = tt

  pub worker_stir-Lives :
      (pc : WorkerPc)
      → (s.workers i).pc ≡ pc
      → Lives n s
      → After (Lives n) (Worker.stir i s (s.workers i) pc)
  unfolding Worker.stir
  worker_stir-Lives WorkerPc.waiting e l = inside-Life _ (rw e refl) refl refl refl refl l
  worker_stir-Lives _ e l = tt
