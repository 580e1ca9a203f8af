-- ===== src/Posix/Direct.antt =====
-- posix/threadpool.cpp: a `ThreadPool` that is not the base of a QueuedThreadPool. Its clients give their
-- tasks to the task managers themselves.
pub mod State
pub mod System
pub mod Account
pub mod Changes
pub mod Steps
pub mod Stranded
mod Tests
