-- ===== src/PowerLog.antt =====
-- main/power_log.c: the log of the power samples.
pub mod Samples
pub mod Refine
pub mod Number
pub mod Info
pub mod Tests
