-- ===== src/Boot.antt =====
-- The bootloader crate, one child for each of its parts.
pub mod Memory
pub mod Secret
pub mod Verify
pub mod Protect
pub mod Jump
pub mod Setup
pub mod Session
