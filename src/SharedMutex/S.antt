-- ===== src/SharedMutex/S.antt =====
-- shared_mutex.cpp: namespace S, over a boost::shared_mutex.
use queued_thread_pool.Prelude.{List, [], ◌∷◌}
use queued_thread_pool.SharedMutex.Modes.{lock_shared, unlock_shared, lock, unlock}
use queued_thread_pool.SharedMutex.Loops.{
  Body, again, call, try, assert, assign, increment, reading, writing,
}

abbrev pub reader : Body
reader = call lock_shared (assert reading (increment (call unlock_shared again)))

abbrev pub writer : Body
writer =
    call lock (assign writing (assert writing (assign reading (increment (call unlock again)))))

abbrev pub try_reader : Body
try_reader = try lock_shared (assert reading (increment (call unlock_shared again))) again

abbrev pub try_writer : Body
try_writer =
    try lock (assign writing (assert writing (assign reading (increment (call unlock again)))))
      again

abbrev pub try_for_reader : Body
try_for_reader = try lock_shared (assert reading (increment (call unlock_shared again))) again

abbrev pub try_for_writer : Body
try_for_writer =
    try lock (assign writing (assert writing (assign reading (increment (call unlock again)))))
      again

-- The threads that test_shared_mutex runs together, one group after the other.
abbrev pub test_shared_mutex : List (List Body)
test_shared_mutex =
    (reader ∷ writer ∷ reader ∷ [])
    ∷ (try_reader ∷ try_writer ∷ try_reader ∷ [])
    ∷ (try_for_reader ∷ try_for_writer ∷ try_for_reader ∷ [])
    ∷ []
