-- ===== src/Server.antt =====
-- The REST API's server: main/otbr_rest.c.
pub mod Body
pub mod Handlers
pub mod Jobs
pub mod DatasetBody
pub mod Paging
pub mod Batch
pub mod Routes
pub mod Control
pub mod Pages
pub mod Logs
pub mod Lifecycle
pub mod Tests
