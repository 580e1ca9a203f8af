-- ===== src/Posix/Pool/Lifecycle/Pool.antt =====
-- The dispatcher's and the destroying thread's steps keep what holds of the task managers' lives.
use queued_thread_pool.Prelude.{
  ℕ, suc, ◌<◌, dec_lt, ◌==◌, if_both, replace, ◌≡◌, refl, sym, ◌∙◌, Bool, true, false, none, some,
  ◌&&◌, ltb, arith, is_empty, is_some, if◌then◌else◌,
}
use queued_thread_pool.Posix.Pool.State.{
  Worker, System, DispatcherPc, starting, outer, inner, scanning, setting, popping, parking, idling,
  asleep, roused, again, done, ShutdownPc, serving, stopping, deleting, joining, clearing,
  joining_dispatcher, emptying, destroyed, is_idle, wake,
}
use queued_thread_pool.Posix.Pool.Dispatcher
use queued_thread_pool.Posix.Pool.Shutdown
use queued_thread_pool.Posix.Pool.Shutdown.{is_done, has_exited}
use queued_thread_pool.Posix.Pool.System.{
  Action, execute_by_client, execute_by_task, worker_runs, worker_stirs, dispatcher_runs,
  dispatcher_stirs, shutdown_runs, step, Reach, start, next,
}
use queued_thread_pool.Posix.Pool.After.{After, After-if, After-lock, After-guarded, After-some}
use queued_thread_pool.Posix.Pool.Account.{target}
use queued_thread_pool.Posix.Pool.Locks.{Lock, Locks, is_serving, dispatching}
use queued_thread_pool.Posix.Pool.Locks.Threads.{Reach-Locks}
use queued_thread_pool.Posix.Pool.Lifecycle.{
  past_loop, Sound, Life, Lives, rouse-Life, aim-Life, put-Life, shift-Life, execute_locked-Lives,
  init-Lives,
}
use queued_thread_pool.Posix.Pool.Lifecycle.Threads.{
  run-Lives, call-Lives, worker_stir-Lives, wake-past_loop, wake-has_exited, exited-past,
}

idle-target : (d : DispatcherPc) → dispatching d ≡ false → target d ≡ none
idle-target (setting t i) e = cc
idle-target _ e = refl

module _ (n : ℕ) (s : System) where
  abbrev Alive : DispatcherPc → ShutdownPc → Type 0
  Alive d sp = Life n s.size s.workers d sp

  -- `set_task` meets a task manager whose thread has not ended: the pool is going, and it is alive.
  set_task-Sound :
      (t i : ℕ)
      → Lock s.owner s.go s.workers (setting t i) s.shutdown_pc
      → Alive (setting t i) s.shutdown_pc
      → Sound s.shutdown_pc (record (s.workers i) { task = some t; pc = wake (s.workers i).pc })
  set_task-Sound t i k l = record {
    bare = λ h.
        let past : past_loop (s.workers i).pc ≡ true =
          exited-past _ (sym (wake-has_exited _) ∙ h) in
        cc (ok.told past (l.chosen i refl), ok.fresh serves);
    ended = λ h. wake-has_exited _ ∙ ok.ended h;
    told = λ h a. ok.told (sym (wake-past_loop _) ∙ h) a;
    fresh = ok.fresh;
  }
    where
      ok : Sound s.shutdown_pc (s.workers i)
      ok = l.each i

      serves : is_serving s.shutdown_pc ≡ true
      serves = sym k.going ∙ k.active refl

  dispatch-Lives :
      (d : DispatcherPc)
      → Lock s.owner s.go s.workers d s.shutdown_pc
      → Alive d s.shutdown_pc
      → After (Lives n) (Dispatcher.dispatch s d)
  unfolding Dispatcher.dispatch
  dispatch-Lives starting k l =
      After-lock (Lives n) (is_some s.owner) _ (λ _. record { life = aim-Life outer (λ j h. cc) l })
  dispatch-Lives outer k l = record { life = aim-Life _ (λ j h. ground arith) l }
  dispatch-Lives (inner t) k l = record { life = aim-Life _ (λ j h. ground arith) l }
  dispatch-Lives (scanning t i) k l =
      After-if (Lives n) (ltb i s.size) _ _
        (λ _. After-lock (Lives n) (s.workers i).monitor _ (λ _. record {
          life =
              aim-Life (if is_idle (s.workers i) then setting t i else scanning t (suc i))
                (λ j h. ground arith) l;
        }))
        (λ _. record { life = aim-Life (parking t) (λ j h. cc) l })
  dispatch-Lives (setting t i) k l =
      After-if (Lives n) (s.workers i).monitor _ _ (λ _. tt)
        (λ _.
          After-if (Lives n) (is_some (s.workers i).task) _ _
            (λ _. record { life = aim-Life (scanning t (suc i)) (λ j h. cc) l })
            (λ _. record {
              life =
                  put-Life i _ (set_task-Sound t i k l) refl (λ h. wake-has_exited _ ∙ h)
                    (aim-Life popping (λ j h. cc) l);
            }))
  dispatch-Lives popping k l = record { life = aim-Life outer (λ j h. cc) l }
  dispatch-Lives (parking t) k l = record { life = aim-Life (asleep (some t)) (λ j h. cc) l }
  dispatch-Lives idling k l =
      After-if (Lives n) (s.go && is_empty s.queue) _ _
        (λ _. record { life = aim-Life (asleep none) (λ j h. cc) l })
        (λ _. record { life = aim-Life again (λ j h. cc) l })
  dispatch-Lives (asleep o) k l = tt
  dispatch-Lives (roused o) k l =
      After-lock (Lives n) (is_some s.owner) _
        (λ _. record { life = aim-Life _ (λ j h. ground arith) l })
  dispatch-Lives again k l =
      After-if (Lives n) s.go _ _ (λ _. record { life = aim-Life outer (λ j h. cc) l })
        (λ _. record { life = aim-Life done (λ j h. cc) l })
  dispatch-Lives done k l = tt

  stir-Lives : (d : DispatcherPc) → Alive d s.shutdown_pc → After (Lives n) (Dispatcher.stir s d)
  unfolding Dispatcher.stir
  stir-Lives (asleep o) l = record { life = aim-Life (roused o) (λ j h. cc) l }
  stir-Lives _ l = tt

  halt-Sound :
      {sp : ShutdownPc} (w : Worker)
      → Sound sp w
      → is_serving sp ≡ false
      → Sound sp (record w { go = false; pc = wake w.pc })
  halt-Sound w ok e = record {
    bare = λ h. ok.bare (sym (wake-has_exited _) ∙ h);
    ended = λ h. wake-has_exited _ ∙ ok.ended h;
    told = λ h a. refl;
    fresh = λ h. cc;
  }

  stop-Sound :
      {sp : ShutdownPc} (w : Worker)
      → Sound sp w
      → is_serving sp ≡ false
      → Sound sp (record w { go = false })
  stop-Sound w ok e = record {
    bare = ok.bare;
    ended = ok.ended;
    told = λ h a. refl;
    fresh = λ h. cc;
  }

  -- One more task manager has been joined.
  join-joined :
      (i : ℕ)
      → has_exited (s.workers i).pc ≡ true
      → Alive s.dispatcher_pc (joining i)
      → (j : ℕ) → j < suc i
      → has_exited (s.workers j).pc ≡ true
  join-joined i e l j h = elim (dec_lt j i) [
    | yes before ↦ l.joined j before
    | no last ↦ let same : j ≡ i = omega arith in rw same e
  ]

  join-Life :
      (i : ℕ)
      → Lock s.owner s.go s.workers s.dispatcher_pc (joining i)
      → Alive s.dispatcher_pc (joining i)
      → has_exited (s.workers i).pc ≡ true
      → Life n s.size
          (replace s.workers i (record (s.workers i) { alive = false }))
          s.dispatcher_pc
          (deleting (suc i))
  join-Life i k l e = record {
    each = λ j. if_both (Sound (deleting (suc i))) (i == j) _ _ (λ _. gone) (λ _. l'.each j);
    chosen = λ j h. cc (idle-target s.dispatcher_pc (ground (arith, k.apart)), h);
    joined = λ j h. ground (arith, l'.joined j h);
    sized = l.sized;
  }
    where
      l' : Alive s.dispatcher_pc (deleting (suc i))
      l' = shift-Life (deleting (suc i)) refl (join-joined i e l) l.sized l

      gone : Sound (deleting (suc i)) (record (s.workers i) { alive = false })
      gone = record {
        bare = (l'.each i).bare;
        ended = λ _. e;
        told = λ h a. cc;
        fresh = (l'.each i).fresh;
      }

  join-Lives :
      (i : ℕ)
      → Lock s.owner s.go s.workers s.dispatcher_pc (joining i)
      → Alive s.dispatcher_pc (joining i)
      → After (Lives n) (Shutdown.destroy s (joining i))
  unfolding Shutdown.destroy
  join-Lives i k l =
      After-if (Lives n) (s.workers i).alive _ _
        (λ _.
          After-if (Lives n) (has_exited (s.workers i).pc) _ _
            (λ e. record { life = join-Life i k l e }) (λ _. tt))
        (λ e. record {
          life =
              shift-Life (deleting (suc i)) refl (join-joined i ((l.each i).ended e) l) l.sized l;
        })

  destroy-Lives :
      (sp : ShutdownPc)
      → Lock s.owner s.go s.workers s.dispatcher_pc sp
      → Alive s.dispatcher_pc sp
      → After (Lives n) (Shutdown.destroy s sp)
  unfolding Shutdown.destroy
  destroy-Lives serving k l = After-lock (Lives n) (is_some s.owner) _ (λ _. record {
    life = shift-Life (stopping 0) refl (λ i h. absurd (omega arith)) l.sized (rouse-Life l);
  })
  destroy-Lives (stopping i) k l =
      After-if (Lives n) (ltb i s.size) _ _
        (λ _. After-lock (Lives n) (s.workers i).monitor _ (λ _. record {
          life = put-Life i _ (stop-Sound (s.workers i) (l'.each i) refl) refl (λ h. h) l';
        }))
        (λ _. record {
          life = shift-Life (deleting 0) refl (λ j h. absurd (omega arith)) l.sized l;
        })
    where
      l' : Alive s.dispatcher_pc (stopping (suc i))
      l' = shift-Life (stopping (suc i)) refl (λ j h. absurd (omega arith)) l.sized l
  destroy-Lives (deleting i) k l =
      After-if (Lives n) (ltb i s.size) _ _
        (λ _. After-lock (Lives n) (s.workers i).monitor _ (λ _. record {
          life =
              put-Life i _ (halt-Sound (s.workers i) (l'.each i) refl) refl
                (λ h. wake-has_exited _ ∙ h) l';
        }))
        (λ e. record {
          life = shift-Life clearing refl (λ j h. l.joined j (ground (arith, l.sized))) l.sized l;
        })
    where
      l' : Alive s.dispatcher_pc (joining i)
      l' = shift-Life (joining i) refl l.joined l.sized l
  destroy-Lives (joining i) k l = join-Lives i k l
  destroy-Lives clearing k l = record {
    life = record { each = l'.each; chosen = l'.chosen; joined = l'.joined; sized = λ h. cc };
  }
    where
      l' : Alive s.dispatcher_pc joining_dispatcher
      l' = shift-Life joining_dispatcher refl l.joined (λ h. cc) l
  destroy-Lives joining_dispatcher k l =
      After-if (Lives n) (is_done s.dispatcher_pc) _ _
        (λ _. record { life = shift-Life emptying refl l.joined (λ h. cc) l }) (λ _. tt)
  destroy-Lives emptying k l =
      After-lock (Lives n) (is_some s.owner) _
        (λ _. record { life = shift-Life destroyed refl l.joined (λ h. cc) l })
  destroy-Lives destroyed k l = tt

  step-Lives : (a : Action) → Locks s → Lives n s → After (Lives n) (step a s)
  unfolding step
  step-Lives (execute_by_client t) k l =
      After-lock (Lives n) (is_some s.owner) _ (λ _. execute_locked-Lives n s t l)
  step-Lives (execute_by_task i u) k l =
      After-guarded (Lives n) _ _ (λ _. call-Lives n s i (s.workers i).pc u refl l)
  step-Lives (worker_runs i) k l =
      After-guarded (Lives n) _ _ (λ _. run-Lives n s i (s.workers i).pc refl l)
  step-Lives (worker_stirs i) k l =
      After-guarded (Lives n) _ _ (λ _. worker_stir-Lives n s i (s.workers i).pc refl l)
  step-Lives dispatcher_runs k l = dispatch-Lives s.dispatcher_pc k.held l.life
  step-Lives dispatcher_stirs k l = stir-Lives s.dispatcher_pc l.life
  step-Lives shutdown_runs k l = destroy-Lives s.shutdown_pc k.held l.life

pub Reach-Lives : {n : ℕ} {started : ℕ → Bool} {s : System} → Reach n started s → Lives n s
Reach-Lives {n} {started} start = init-Lives n started
Reach-Lives {n} (next {s} a r e) =
    After-some (Lives n) e (step-Lives n s a (Reach-Locks r) (Reach-Lives r))
