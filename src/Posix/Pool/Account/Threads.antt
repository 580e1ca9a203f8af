-- ===== src/Posix/Pool/Account/Threads.antt =====
-- The dispatcher's and the destroying thread's steps keep the account of every task.
use queued_thread_pool.Prelude.{
  ℕ, suc, ◌<◌, ◌≡◌, refl, Bool, true, false, Option, none, some, ◌&&◌, ltb, ltb→lt, arith, is_empty,
  is_some, if◌then◌else◌,
}
use queued_thread_pool.Posix.Pool.State.{
  System, DispatcherPc, starting, outer, inner, scanning, setting, popping, parking, idling, asleep,
  roused, again, done, ShutdownPc, serving, stopping, deleting, joining, clearing,
  joining_dispatcher, emptying, destroyed, is_idle,
}
use queued_thread_pool.Posix.Pool.Dispatcher
use queued_thread_pool.Posix.Pool.Shutdown
use queued_thread_pool.Posix.Pool.Shutdown.{is_done, has_exited}
use queued_thread_pool.Posix.Pool.System.{
  Action, execute_by_client, execute_by_task, worker_runs, worker_stirs, dispatcher_runs,
  dispatcher_stirs, shutdown_runs, step, Reach, start, next,
}
use queued_thread_pool.Posix.Pool.After.{After, After-if, After-lock, After-guarded, After-some}
use queued_thread_pool.Posix.Pool.Account.{
  Account, Accounts, aim-Account, rouse-Account, put-Account, set-Account, execute_locked-Accounts,
  run-Accounts, call-Accounts, worker_stir-Accounts, init-Accounts,
}

none_of : {o : Option ℕ} → is_some o ≡ false → o ≡ none
none_of {o = none} e = refl
none_of {o = some t} e = cc

module _ (n : ℕ) (s : System) where
  abbrev Held : DispatcherPc → Type 0
  Held pc = Account n s.size s.workers pc s.dispatched s.executed s.dropped

  dispatch-Accounts : (pc : DispatcherPc) → Held pc → After (Accounts n) (Dispatcher.dispatch s pc)
  unfolding Dispatcher.dispatch
  dispatch-Accounts starting a =
      After-lock (Accounts n) (is_some s.owner) _
        (λ _. record { holds = aim-Account outer (λ j h. cc) a })
  dispatch-Accounts outer a = record { holds = aim-Account _ (λ j h. ground arith) a }
  dispatch-Accounts (inner t) a = record { holds = aim-Account _ (λ j h. ground arith) a }
  dispatch-Accounts (scanning t i) a =
      After-if (Accounts n) (ltb i s.size) _ _
        (λ e. After-lock (Accounts n) (s.workers i).monitor _ (λ _. record {
          holds =
              aim-Account (if is_idle (s.workers i) then setting t i else scanning t (suc i))
                (λ j h. ground (arith, a.small)) a;
        }))
        (λ _. record { holds = aim-Account (parking t) (λ j h. cc) a })
  dispatch-Accounts (setting t i) a =
      After-if (Accounts n) (s.workers i).monitor _ _ (λ _. tt)
        (λ _.
          After-if (Accounts n) (is_some (s.workers i).task) _ _
            (λ _. record { holds = aim-Account (scanning t (suc i)) (λ j h. cc) a })
            (λ e. record { holds = set-Account i t _ (a.aimed i refl) (none_of e) refl a }))
  dispatch-Accounts popping a = record { holds = aim-Account outer (λ j h. cc) a }
  dispatch-Accounts (parking t) a = record { holds = aim-Account (asleep (some t)) (λ j h. cc) a }
  dispatch-Accounts idling a =
      After-if (Accounts n) (s.go && is_empty s.queue) _ _
        (λ _. record { holds = aim-Account (asleep none) (λ j h. cc) a })
        (λ _. record { holds = aim-Account again (λ j h. cc) a })
  dispatch-Accounts (asleep o) a = tt
  dispatch-Accounts (roused o) a =
      After-lock (Accounts n) (is_some s.owner) _
        (λ _. record { holds = aim-Account _ (λ j h. ground arith) a })
  dispatch-Accounts again a =
      After-if (Accounts n) s.go _ _ (λ _. record { holds = aim-Account outer (λ j h. cc) a })
        (λ _. record { holds = aim-Account done (λ j h. cc) a })
  dispatch-Accounts done a = tt

  stir-Accounts : (pc : DispatcherPc) → Held pc → After (Accounts n) (Dispatcher.stir s pc)
  unfolding Dispatcher.stir
  stir-Accounts (asleep o) a = record { holds = aim-Account (roused o) (λ j h. cc) a }
  stir-Accounts _ a = tt

  destroy-Accounts : (sp : ShutdownPc) → Accounts n s → After (Accounts n) (Shutdown.destroy s sp)
  unfolding Shutdown.destroy
  destroy-Accounts serving a =
      After-lock (Accounts n) (is_some s.owner) _ (λ _. record { holds = rouse-Account a.holds })
  destroy-Accounts (stopping i) a =
      After-if (Accounts n) (ltb i s.size) _ _
        (λ _.
          After-lock (Accounts n) (s.workers i).monitor _
            (λ _. record { holds = put-Account i _ refl a.holds }))
        (λ _. record { holds = a.holds })
  destroy-Accounts (deleting i) a =
      After-if (Accounts n) (ltb i s.size) _ _
        (λ _.
          After-lock (Accounts n) (s.workers i).monitor _
            (λ _. record { holds = put-Account i _ refl a.holds }))
        (λ _. record { holds = a.holds })
  destroy-Accounts (joining i) a =
      After-if (Accounts n) (s.workers i).alive _ _
        (λ _.
          After-if (Accounts n) (has_exited (s.workers i).pc) _ _
            (λ _. record { holds = put-Account i _ refl a.holds }) (λ _. tt))
        (λ _. record { holds = a.holds })
  destroy-Accounts clearing a = record {
    holds = record { small = omega arith; aimed = a.holds.aimed; account = a.holds.account };
  }
  destroy-Accounts joining_dispatcher a =
      After-if (Accounts n) (is_done s.dispatcher_pc) _ _ (λ _. record { holds = a.holds })
        (λ _. tt)
  destroy-Accounts emptying a =
      After-lock (Accounts n) (is_some s.owner) _ (λ _. record { holds = a.holds })
  destroy-Accounts destroyed a = tt

  member : (i : ℕ) → Accounts n s → ltb i s.size ≡ true → i < n
  member i a e = omega (arith, a.holds.small, ltb→lt i s.size e)

  step-Accounts : (x : Action) → Accounts n s → After (Accounts n) (step x s)
  unfolding step
  step-Accounts (execute_by_client t) a =
      After-lock (Accounts n) (is_some s.owner) _ (λ _. execute_locked-Accounts n s t a)
  step-Accounts (execute_by_task i u) a =
      After-guarded (Accounts n) _ _ (λ _. call-Accounts n s i (s.workers i).pc u a)
  step-Accounts (worker_runs i) a =
      After-guarded (Accounts n) _ _ (λ e. run-Accounts n s i (s.workers i).pc (member i a e) a)
  step-Accounts (worker_stirs i) a =
      After-guarded (Accounts n) _ _ (λ _. worker_stir-Accounts n s i (s.workers i).pc a)
  step-Accounts dispatcher_runs a = dispatch-Accounts s.dispatcher_pc a.holds
  step-Accounts dispatcher_stirs a = stir-Accounts s.dispatcher_pc a.holds
  step-Accounts shutdown_runs a = destroy-Accounts s.shutdown_pc a

pub Reach-Accounts : {n : ℕ} {started : ℕ → Bool} {s : System} → Reach n started s → Accounts n s
Reach-Accounts {n} {started} start = init-Accounts n started
Reach-Accounts {n} (next {s} x r e) =
    After-some (Accounts n) e (step-Accounts n s x (Reach-Accounts r))
