-- ===== src/Posix.antt =====
-- posix/threadpool.{hpp,cpp}: the thread pool on pthreads (namespace AgentppCK).
pub mod Clock
pub mod Synchronized
pub mod Thread
pub mod Pool
pub mod Direct
mod Tests
