-- ===== src/Tests.antt =====
-- A chip in place of the real one, and the theorems applied to concrete runs on it.
pub mod Wire
pub mod Delivery
pub mod Chip
pub mod Boot
pub mod Peer
pub mod Device
pub mod Controller
pub mod Panics
pub mod Merge
pub mod Tasks
pub mod Host
pub mod HostBle
