-- ===== src/Wifi.antt =====
-- main/main.c: the Wi-Fi station's supervisor, and joining and leaving a network.
pub mod Station
pub mod Ladder
pub mod Join
pub mod Flash
pub mod Tests
