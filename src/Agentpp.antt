-- ===== src/Agentpp.antt =====
-- threadpool.{hpp,cpp}: the thread pool on Boost.Thread (namespace Agentpp).
pub mod Synchronized
pub mod Thread
pub mod Pool
pub mod Queued
mod Tests
