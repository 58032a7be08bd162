-- ===== src/Firmware.antt =====
-- The firmware crate, one child for each of its parts.
pub mod Kernel
pub mod Comms
pub mod Nus
pub mod Server
pub mod Settings
pub mod Setup
pub mod Startup
