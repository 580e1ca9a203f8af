-- ===== src/Alarm.antt =====
-- alarm_cond.cpp: alarms that a thread handles in the order of their times. `Queue` has the list and
-- alarm_insert, `System` the alarm thread and main, the others the proofs.
pub mod Queue
pub mod System
pub mod Attends
pub mod Waiting
pub mod Account
mod Tests
