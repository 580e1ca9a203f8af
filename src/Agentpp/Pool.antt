-- ===== src/Agentpp/Pool.antt =====
-- threadpool.{hpp,cpp}: TaskManager and ThreadPool as threads that interleave. A child module for the
-- state, one for each kind of thread, one for the system, and the proofs.
pub mod State
pub mod Manager
pub mod Client
pub mod Shutdown
pub mod System
pub mod Invariant
pub mod After
pub mod Safety
pub mod Deadlock
pub mod Loss
pub mod Termination
