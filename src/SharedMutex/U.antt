-- ===== src/SharedMutex/U.antt =====
-- shared_mutex.cpp: namespace U, over a boost::upgrade_mutex.
use queued_thread_pool.Prelude.{List, [], ◌∷◌}
use queued_thread_pool.SharedMutex.Modes.{
  lock_shared, unlock_shared, lock, unlock, lock_upgrade, unlock_upgrade, unlock_upgrade_and_lock,
  unlock_and_lock_upgrade, unlock_and_lock_shared, unlock_upgrade_and_lock_shared,
  unlock_shared_and_lock, unlock_shared_and_lock_upgrade,
}
use queued_thread_pool.SharedMutex.Loops.{
  Body, again, call, try, assert, assign, increment, reading, writing,
}

abbrev pub reader : Body
reader = call lock_shared (assert reading (increment (call unlock_shared again)))

abbrev pub writer : Body
writer =
    call lock (assign writing (assert writing (assign reading (increment (call unlock again)))))

abbrev pub try_reader : Body
try_reader = try lock_shared (assert reading (increment (call unlock_shared again))) again

abbrev pub try_writer : Body
try_writer =
    try lock (assign writing (assert writing (assign reading (increment (call unlock again)))))
      again

abbrev pub try_for_reader : Body
try_for_reader = try lock_shared (assert reading (increment (call unlock_shared again))) again

abbrev pub try_for_writer : Body
try_for_writer =
    try lock (assign writing (assert writing (assign reading (increment (call unlock again)))))
      again

abbrev pub upgradable : Body
upgradable = call lock_upgrade (assert reading (increment (call unlock_upgrade again)))

abbrev pub try_upgradable : Body
try_upgradable = try lock_upgrade (assert reading (increment (call unlock_upgrade again))) again

abbrev pub try_for_upgradable : Body
try_for_upgradable = try lock_upgrade (assert reading (increment (call unlock_upgrade again))) again

abbrev pub clockwise : Body
clockwise =
    let back = assert writing (
      assign reading (
        call unlock_and_lock_upgrade (
          assert reading (
            call unlock_upgrade_and_lock_shared
              (assert reading (call unlock_shared (increment again))))))) in
    call lock_shared (
      assert reading (
        try unlock_shared_and_lock (assign writing back) (
          try unlock_shared_and_lock_upgrade
            (assert reading (call unlock_upgrade_and_lock (assign writing back)))
            (call unlock_shared again))))

abbrev pub counter_clockwise : Body
counter_clockwise = call lock_upgrade (
    assert reading (
      call unlock_upgrade_and_lock (
        assert reading (
          assign writing (
            assert writing (
              assign reading (
                call unlock_and_lock_shared
                  (assert reading (call unlock_shared (increment again))))))))))

abbrev pub try_clockwise : Body
try_clockwise =
    let back = assert writing (
      assign reading (
        call unlock_and_lock_upgrade (
          assert reading (
            call unlock_upgrade_and_lock_shared
              (assert reading (call unlock_shared (increment again))))))) in
    try lock_shared
      (assert reading (
        try unlock_shared_and_lock (assign writing back) (
          try unlock_shared_and_lock_upgrade
            (assert reading (call unlock_upgrade_and_lock (assign writing back)))
            (call unlock_shared again))))
      again

abbrev pub try_for_clockwise : Body
try_for_clockwise =
    let back = assert writing (
      assign reading (
        call unlock_and_lock_upgrade (
          assert reading (
            call unlock_upgrade_and_lock_shared
              (assert reading (call unlock_shared (increment again))))))) in
    try lock_shared
      (assert reading (
        try unlock_shared_and_lock (assign writing back) (
          try unlock_shared_and_lock_upgrade
            (assert reading (call unlock_upgrade_and_lock (assign writing back)))
            (call unlock_shared again))))
      again

abbrev pub try_counter_clockwise : Body
try_counter_clockwise =
    try lock_upgrade
      (assert reading (
        try unlock_upgrade_and_lock
          (assert reading (
            assign writing (
              assert writing (
                assign reading (
                  call unlock_and_lock_shared
                    (assert reading (call unlock_shared (increment again))))))))
          (call unlock_upgrade again)))
      again

abbrev pub try_for_counter_clockwise : Body
try_for_counter_clockwise =
    try lock_upgrade
      (assert reading (
        try unlock_upgrade_and_lock
          (assert reading (
            assign writing (
              assert writing (
                assign reading (
                  call unlock_and_lock_shared
                    (assert reading (call unlock_shared (increment again))))))))
          (call unlock_upgrade again)))
      again

-- The threads that test_upgrade_mutex runs together, one group after the other.
abbrev pub test_upgrade_mutex : List (List Body)
test_upgrade_mutex =
    (reader ∷ writer ∷ reader ∷ [])
    ∷ (try_reader ∷ try_writer ∷ try_reader ∷ [])
    ∷ (try_for_reader ∷ try_for_writer ∷ try_for_reader ∷ [])
    ∷ (reader ∷ writer ∷ upgradable ∷ [])
    ∷ (reader ∷ writer ∷ try_upgradable ∷ [])
    ∷ (reader ∷ writer ∷ try_for_upgradable ∷ [])
    ∷ (clockwise ∷ counter_clockwise ∷ clockwise ∷ counter_clockwise ∷ [])
    ∷ (try_clockwise ∷ try_counter_clockwise ∷ [])
    ∷ (try_for_clockwise ∷ try_for_counter_clockwise ∷ [])
    ∷ []
