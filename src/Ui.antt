-- ===== src/Ui.antt =====
-- The parts of the touch interface that keep state of their own: main/ui.c.
pub mod Activity
pub mod Rates
pub mod History
pub mod Worker
pub mod Handover
pub mod Tests
