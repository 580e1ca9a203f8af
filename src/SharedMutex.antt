-- ===== src/SharedMutex.antt =====
-- shared_mutex.cpp: loops that lock a boost::shared_mutex or boost::upgrade_mutex in every way, and
-- assert what it promises. `S` and `U` have the loops, `System` their threads.
pub mod Modes
pub mod Loops
pub mod S
pub mod U
pub mod System
pub mod Invariant
pub mod Assertions
pub mod Groups
mod Tests
