-- ===== src/Settings.antt =====
-- main/settings.c: the user settings and the device name, persisted in NVS.
pub mod Store
pub mod Laws
pub mod Tests
