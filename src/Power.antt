-- ===== src/Power.antt =====
-- main/power.c: the battery gauge and the discharge history; main/matter_battery_model.h: what the
-- Matter battery endpoint makes of a reading.
pub mod Gauge
pub mod Reading
pub mod History
pub mod Rate
pub mod Discharge
pub mod Matter
pub mod Tests
