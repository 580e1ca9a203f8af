-- ===== src/Agentpp/Tests/Objects.antt =====
-- The theorems on one Synchronized, one Thread and one QueuedThreadPool object of threadpool.cpp, at concrete
-- calls.
use queued_thread_pool.Prelude.{
  ℕ, ◌+◌, ◌&&◌, not, ◌≡◌, refl, true, false, none, some, List, [], ◌∷◌, ◌++◌, arith, view,
  if◌then◌else◌, count, ltb,
}
use queued_thread_pool.Agentpp.Synchronized
use queued_thread_pool.Agentpp.Synchronized.{
  Call, locks, trylocks, unlocks, returned, thrown, locked, owned, busy, lock_reply, trylock_reply,
  unlock_reply, Tracked, all_by_holder, monitor_calls-by_holder,
}
use queued_thread_pool.Agentpp.Synchronized.Plain.{plain_mutex}
use queued_thread_pool.Agentpp.Synchronized.Timed.{
  lock_for, first_free, fails, acquires, lock_for_lem,
}
use queued_thread_pool.Agentpp.Thread
use queued_thread_pool.Agentpp.Thread.{boost_threads_joined}
use queued_thread_pool.Agentpp.Queued
use queued_thread_pool.Agentpp.Queued.{
  executes, submits, asks_idle, asks_busy, asks_length, terminates, thread_takes, new, queue,
  is_idle, is_busy, queue_length, tries, stop,
}
use queued_thread_pool.Agentpp.Queued.Terminated.{terminate_is_final}
use queued_thread_pool.Agentpp.Queued.Plain.{plain_executor}

-- Nobody holds the mutex.
abbrev fresh : Synchronized.Synchronized plain_mutex
fresh = record { mutex = none; tid = none }

-- Thread 1 locks, tries to lock again both ways, thread 2 tries and fails to unlock, thread 1 unlocks.
abbrev calls : List (ℕ × Call)
calls = (1, locks) ∷ (1, trylocks) ∷ (1, locks) ∷ (2, trylocks) ∷ (2, unlocks) ∷ (1, unlocks) ∷ []

calls_answered :
    Synchronized.call_all plain_mutex false calls fresh
    ≡ some (
      lock_reply (returned true)
          ∷ trylock_reply owned
          ∷ lock_reply thrown
          ∷ trylock_reply busy
          ∷ unlock_reply false
          ∷ unlock_reply true
          ∷ [],
      fresh,
    )
unfolding Synchronized.call_all
calls_answered = refl

monitor_calls-by_holder_example :
    view (λ s. s.tid) (Synchronized.call_all plain_mutex false calls fresh)
    ≡ all_by_holder false calls none
monitor_calls-by_holder_example = monitor_calls-by_holder plain_mutex false calls fresh refl

-- Thread 2 holds the mutex for twenty milliseconds.
abbrev held_early : ℕ → Synchronized.Synchronized plain_mutex
held_early k =
    if ltb 1 k then record { mutex = none; tid = none } else record { mutex = some 2; tid = some 2 }

held_early-Tracked : (k : ℕ) → Tracked plain_mutex (held_early k)
held_early-Tracked k = ground arith

abbrev held_by_one : Synchronized.Synchronized plain_mutex
held_by_one = record { mutex = some 1; tid = some 1 }

lock_for_late :
    (lock_for plain_mutex 1 held_early 20 ≡ some fails)
    × (lock_for plain_mutex 1 held_early 21 ≡ some (acquires held_by_one))
unfolding lock_for
lock_for_late = (refl, refl)

lock_for_lem_example :
    lock_for plain_mutex 1 held_early 21 ≡ some (first_free plain_mutex 1 held_early 0 3)
lock_for_lem_example = lock_for_lem plain_mutex 1 held_early held_early-Tracked 21

-- A thread ends before `start` has set the status, is joined, and another one is started.
abbrev second_life : Thread.Thread
second_life = record {
  status = Thread.running;
  owner = Thread.outside;
  starter = Thread.at_work;
  made = 2;
  joined = 1;
}

second_life_reached : Thread.Reach second_life
unfolding Thread.step
second_life_reached =
    Thread.next Thread.owner_runs
      (Thread.next Thread.starts
        (Thread.next Thread.owner_runs
          (Thread.next Thread.joins
            (Thread.next Thread.owner_runs
              (Thread.next Thread.thread_runs (Thread.next Thread.starts Thread.begin refl) refl)
              refl)
            refl)
          refl)
        refl)
      refl

boost_threads_joined_example :
    (◌≡◌ {A = ℕ} 2 (1 + 1))
    × (Thread.is_finished Thread.running && not (Thread.is_ended Thread.at_work) ≡ false)
boost_threads_joined_example = boost_threads_joined second_life_reached refl

-- Four calls of `execute` pass the test; three give their task to the executor. A thread takes one, a query
-- starts another. After `terminate` the fourth call is rejected, and a fifth refused.
abbrev before_end : List Queued.Call
before_end =
    executes 1
    ∷ submits 0
    ∷ executes 2
    ∷ executes 3
    ∷ executes 4
    ∷ submits 1
    ∷ submits 0
    ∷ thread_takes
    ∷ asks_length
    ∷ []

abbrev after_end : List Queued.Call
after_end = submits 0 ∷ executes 5 ∷ asks_busy ∷ []

abbrev pool_calls : List Queued.Call
pool_calls = before_end ++ terminates ∷ after_end

abbrev two_threads : Queued.QueuedPool plain_executor
two_threads = Queued.call_all plain_executor pool_calls (new plain_executor 2)

pool_calls_history :
    (two_threads.started ≡ 1 ∷ 3 ∷ [])
    × (queue plain_executor two_threads.ea ≡ 2 ∷ [])
    × (two_threads.rejected ≡ 4 ∷ [])
    × (two_threads.refused ≡ 5 ∷ [])
unfolding Queued.call_all
pool_calls_history = (refl, refl, refl, refl)

terminate_is_final_example :
    let s = Queued.call_all plain_executor before_end (new plain_executor 2) in
    let u = Queued.call_all plain_executor after_end (stop plain_executor s) in
    ((x : ℕ)
      → count x u.started + count x (queue plain_executor u.ea)
        ≡ count x s.started + count x (queue plain_executor s.ea))
    × ((is_idle plain_executor u).0 ≡ false)
    × ((is_busy plain_executor u).0 ≡ true)
    × ((queue_length plain_executor u).0 ≡ 1)
terminate_is_final_example = terminate_is_final plain_executor 2 before_end after_end
