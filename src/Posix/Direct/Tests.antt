-- ===== src/Posix/Direct/Tests.antt =====
-- posix/threadpool.cpp: runs of a ThreadPool, and its theorems there.
use queued_thread_pool.Prelude.{
  ℕ, zero, suc, ◌≡◌, refl, Bool, true, List, [], ◌∷◌, ◌++◌, follow, or_else, followed, After,
}
use queued_thread_pool.Posix.Direct.State.{Direct, waiting, ended}
use queued_thread_pool.Posix.Direct.System.{
  Action, worker_runs, calls, client_runs, terminates, terminate_runs, step, init, Reach, start,
  next,
}
use queued_thread_pool.Posix.Direct.Account.{Balanced}
use queued_thread_pool.Posix.Direct.Steps.{direct_account}
use queued_thread_pool.Posix.Direct.Stranded.{Abandoned, stranded_clients}

abbrev times : ℕ → Action → List Action
times zero a = []
times (suc n) a = a ∷ times n a

abbrev all : ℕ → Bool
all i = true

-- One task manager has got task 5 and not yet its mutex; clients 1, 2 and 3 find it busy, and wait.
abbrev to_waiting : List Action
to_waiting =
    times 3 (worker_runs 0 0)
    ++ (calls 0 5 ∷ times 3 (client_runs 0)
        ++ (calls 1 6 ∷ times 3 (client_runs 1)
            ++ (calls 2 7 ∷ times 3 (client_runs 2) ++ (calls 3 8 ∷ times 3 (client_runs 3)))))

-- `terminate` ends the task manager, and notifies client 1.
abbrev to_over : List Action
to_over =
    to_waiting
    ++ (terminates ∷ times 4 (terminate_runs 1)
        ++ (times 4 (worker_runs 0 0) ++ times 4 (terminate_runs 1)))

abbrev over : Direct
over = or_else (init 1 all) (follow (step 4) to_over (init 1 all))

over_reached : Reach 1 4 all over
unfolding step
over_reached = followed (step 4) (Reach 1 4 all) (λ a s t r e. next a r e) to_over start refl

over-ended : over.terminate_pc ≡ ended
unfolding step
over-ended = refl

-- Client 1 returns, the destructor calls `terminate` again, which notifies client 2, and this returns.
abbrev afterwards : List Action
afterwards = client_runs 1 ∷ terminates ∷ times 5 (terminate_runs 2) ++ client_runs 2 ∷ []

abbrev destroyed : Direct
destroyed = or_else over (follow (step 4) afterwards over)

-- Client 3 waits for ever, and its task is nowhere but with it.
destroyed-waits :
    (destroyed.clients 3 ≡ waiting 8)
    × (destroyed.terminate_pc ≡ ended)
    × (destroyed.refused ≡ 6 ∷ 7 ∷ [])
unfolding step
destroyed-waits = (refl, refl, refl)

direct_account_example : Balanced 1 4 over
direct_account_example = direct_account over_reached

stranded_clients_example : After (Abandoned 4 over 1) (follow (step 4) afterwards over)
stranded_clients_example = stranded_clients over_reached over-ended afterwards refl
