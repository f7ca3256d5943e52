-- ===== src/MeshCop.antt =====
-- The external ePSKc commissioner: main/meshcop_codec.h and main/meshcop.c.
pub mod Codec
pub mod Format
pub mod Options
pub mod Payload
pub mod Message
pub mod Tlvs
pub mod Petition
pub mod Client
pub mod Fetch
pub mod Replies
pub mod Post
pub mod Dataset
pub mod Dump
pub mod Decode
pub mod Tests
