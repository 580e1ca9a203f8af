-- ===== src/Posix/Tests/Objects.antt =====
-- The theorems on one Synchronized object and on one Thread object of posix/threadpool.cpp, at
-- concrete calls.
use queued_thread_pool.Prelude.{
  ℕ, ◌+◌, ◌↔◌, ◌≡◌, ◌≢◌, refl, true, false, none, some, List, [], ◌∷◌, if◌then◌else◌, view,
}
use queued_thread_pool.Posix.Synchronized.{
  Call, locks, trylocks, unlocks, returned, thrown, busy, lock_reply, trylock_reply, unlock_reply,
  all_by_holder, call_all, call_all-by_holder, einval, etimedout, timed_wait, timed_wait_iff,
}
use queued_thread_pool.Posix.Synchronized.Plain.{plain_mutex}
use queued_thread_pool.Posix.Thread.{
  Use, starts, joins, running, use_all, new_thread, is_alive, delete, threads_joined,
}

timed_wait_iff_example :
    ((timed_wait etimedout ≡ thrown) ↔ (etimedout ≡ einval))
    × ((timed_wait etimedout ≡ returned true) ↔ (etimedout ≡ etimedout))
    × ((timed_wait etimedout ≡ returned false) ↔ ((etimedout ≢ einval) × (etimedout ≢ etimedout)))
timed_wait_iff_example = timed_wait_iff etimedout

-- Thread 1 locks, tries to lock again both ways, thread 2 fails to unlock, thread 1 unlocks.
abbrev calls : List (ℕ × Call)
calls = (1, locks) ∷ (1, trylocks) ∷ (1, locks) ∷ (2, unlocks) ∷ (1, unlocks) ∷ []

calls_answered :
    call_all plain_mutex calls none
    ≡ some (
      lock_reply (returned true)
          ∷ trylock_reply (returned busy)
          ∷ lock_reply thrown
          ∷ unlock_reply false
          ∷ unlock_reply true
          ∷ [],
      none,
    )
unfolding call_all
calls_answered = refl

call_all-by_holder_example :
    view (plain_mutex.owner) (call_all plain_mutex calls none) ≡ all_by_holder calls none
call_all-by_holder_example = call_all-by_holder plain_mutex calls none

-- A start that fails, then two lives of one object.
abbrev uses : List Use
uses = starts false ∷ joins true ∷ starts true ∷ starts true ∷ joins true ∷ starts true ∷ []

uses_status : (use_all new_thread uses).status ≡ running
unfolding use_all
uses_status = refl

threads_there :
    ((use_all new_thread uses).created
      ≡ (use_all new_thread uses).taken_back
        + (if is_alive (use_all new_thread uses).status then 1 else 0))
    × ((delete (use_all new_thread uses) true).created
        ≡ (delete (use_all new_thread uses) true).taken_back)
threads_there = threads_joined uses refl
