-- ===== src/Qrscan.antt =====
-- The camera's QR scanner: main/qrscan.c.
pub mod Camera
pub mod Cycle
pub mod Outcome
pub mod Frame
pub mod Grey
pub mod Preview
pub mod Tests
