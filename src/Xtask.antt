-- ===== src/Xtask.antt =====
-- The xtask crate: the merge of images, and the patches of the SoftDevice.
pub mod Merge
pub mod Task
pub mod Build
pub mod Command
