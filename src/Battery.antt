-- ===== src/Battery.antt =====
-- The Matter battery endpoint: main/matter_battery.cpp.
pub mod Publisher
pub mod Wakeup
pub mod Tests
