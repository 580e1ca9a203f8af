-- ===== src/Scheduler.antt =====
-- priority_scheduler.cpp: `class priority_scheduler`, which executes what is posted to it by priority.
pub mod Queue
pub mod System
pub mod Order
pub mod Stop
mod Tests
