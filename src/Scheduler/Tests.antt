-- ===== src/Scheduler/Tests.antt =====
-- priority_scheduler.cpp: runs of the model over a plain priority queue, and its theorems there.
use queued_thread_pool.Prelude.{
  ◌≡◌, refl, true, false, List, [], ◌∷◌, ◌++◌, follow, or_else, followed,
}
use queued_thread_pool.Scheduler.Queue.{item_comp}
use queued_thread_pool.Scheduler.Queue.Plain.{plain_queue}
use queued_thread_pool.Scheduler.System.{
  Scheduler, undefined, waiting, Action, runs, stops, gets_executor, posts, step, init, Reach,
  start, next,
}
use queued_thread_pool.Scheduler.Order.{Kept, Sorted, scheduler_account, taken_by_priority}
use queued_thread_pool.Scheduler.Stop.{waits_without_work, stop_ends_run, Returned, runs_for}

abbrev Plain : Type 0
Plain = Scheduler plain_queue

abbrev at_start : Plain
at_start = init plain_queue false

abbrev after_all : List Action → Plain
after_all l = or_else at_start (follow (step plain_queue) l at_start)

-- `main`: functions 1 and 11, 2 and 3 with the priorities 1, 2, 3, and last, with 0, what stops.
abbrev to_posted : List Action
to_posted = gets_executor ∷ posts 1 1 ∷ posts 11 1 ∷ posts 2 2 ∷ posts 3 3 ∷ posts 0 0 ∷ []

abbrev to_taken : List Action
to_taken =
    to_posted
    ++ (runs ∷ runs ∷ runs ∷ runs ∷ runs ∷ runs ∷ runs ∷ runs ∷ runs ∷ runs ∷ runs ∷ runs ∷ runs
        ∷ runs ∷ runs ∷ [])

abbrev taken : Plain
taken = after_all to_taken

taken_reached : Reach plain_queue false taken
unfolding step item_comp
taken_reached =
    followed (step plain_queue) (Reach plain_queue false) (λ a s t r e. next a r e) to_taken start
      refl

-- They are taken by their priorities, 11 and 1 in the order that the plain queue happens to give.
taken-batch :
    taken.batch
    ≡ record { name = 0; priority = 0 }
      ∷ record { name = 1; priority = 1 }
      ∷ record { name = 11; priority = 1 }
      ∷ record { name = 2; priority = 2 }
      ∷ record { name = 3; priority = 3 }
      ∷ []
unfolding step item_comp
taken-batch = refl

-- The last of them calls `stop`.
abbrev stopping : Plain
stopping = after_all (to_taken ++ stops ∷ [])

stopping_reached : Reach plain_queue false stopping
unfolding step item_comp
stopping_reached =
    followed (step plain_queue) (Reach plain_queue false) (λ a s t r e. next a r e)
      (to_taken ++ stops ∷ []) start refl

stopping-revived : stopping.revived ≡ false
unfolding step item_comp
stopping-revived = refl

stopping-stopped : stopping.stopped ≡ true
unfolding step item_comp
stopping-stopped = refl

-- `hasWork()` is true since `stop` was called; then another thread calls get_executor, before `run`
-- tests `stopped_`: it calls `top` on an empty queue.
abbrev to_undefined : List Action
to_undefined = gets_executor ∷ runs ∷ stops ∷ runs ∷ gets_executor ∷ runs ∷ []

top_of_empty : (after_all to_undefined).pc ≡ undefined
unfolding step
top_of_empty = refl

scheduler_account_example : Kept plain_queue taken taken.pc
scheduler_account_example = scheduler_account plain_queue taken_reached

taken_by_priority_example : Sorted plain_queue taken
taken_by_priority_example = taken_by_priority plain_queue taken_reached

-- A function is posted and executed; then `run` waits, with nothing to do.
abbrev to_waiting : List Action
to_waiting = gets_executor ∷ runs ∷ posts 1 1 ∷ runs ∷ runs ∷ runs ∷ runs ∷ []

abbrev resting : Plain
resting = after_all to_waiting

resting_waits : resting.pc ≡ waiting
unfolding step item_comp
resting_waits = refl

resting_reached : Reach plain_queue false resting
unfolding step item_comp
resting_reached =
    followed (step plain_queue) (Reach plain_queue false) (λ a s t r e. next a r e) to_waiting start
      refl

waits_without_work_example : (resting.queue ≡ []) × (resting.stopped ≡ false)
unfolding step item_comp
waits_without_work_example = waits_without_work plain_queue resting_reached

stop_ends_run_example : Returned plain_queue stopping (runs_for plain_queue 3 stopping)
stop_ends_run_example = stop_ends_run plain_queue stopping_reached stopping-revived stopping-stopped
