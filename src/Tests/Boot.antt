-- ===== src/Tests/Boot.antt =====
-- The theorems on the bootloader, applied to runs on the simulated chip.
mod Update
mod Updated
mod Locks
mod Loop
mod Jump
mod Glitch
