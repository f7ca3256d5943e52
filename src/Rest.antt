-- ===== src/Rest.antt =====
-- The wire helpers of the REST API: main/otbr_rest_wire.h.
pub mod Wire
pub mod Json
pub mod JsonReader
pub mod Bodies
pub mod Options
pub mod Lifetime
pub mod Tests
