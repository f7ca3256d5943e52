-- ===== src/LogRing.antt =====
-- The log ring in no-init PSRAM: main/log_ring.c.
pub mod Text
pub mod Clean
pub mod Utf8
pub mod Slot
pub mod Ring
pub mod Refine
pub mod Listing
pub mod Tests
