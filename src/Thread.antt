-- ===== src/Thread.antt =====
-- main/thread.c: the Thread stack's owner: the stored dataset, the topology scan, the start of the
-- border router, and sharing.
pub mod Dataset
pub mod Rollback
pub mod Hex
pub mod Topology
pub mod Totals
pub mod Scan
pub mod Start
pub mod Router
pub mod Txt
pub mod Entries
pub mod Share
pub mod Advert
pub mod Tests
