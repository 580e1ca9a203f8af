-- ===== src/Posix/Pool.antt =====
-- posix/threadpool.{hpp,cpp}: TaskManager, ThreadPool and QueuedThreadPool as threads that
-- interleave. A child module for each thread, one for the system, and the proofs.
pub mod State
pub mod Worker
pub mod Dispatcher
pub mod Shutdown
pub mod System
pub mod After
pub mod Flow
pub mod Locks
pub mod Account
pub mod Stop
pub mod Safety
pub mod Queries
pub mod Wakeup
pub mod Lifecycle
pub mod Termination
pub mod Deadlock
