-- ===== src/Fs.antt =====
-- kernel/fs/fs.c, the filesystem.
pub mod Names
pub mod Path
pub mod Disk
pub mod Layout
pub mod Walk
pub mod Files
pub mod Manage
pub mod Listing
pub mod Safety
pub mod Selftest
pub mod Calls
mod Codec
mod Tests
