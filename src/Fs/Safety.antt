-- ===== src/Fs/Safety.antt =====
-- kernel/fs/fs.c: which sectors the calls write, and the superblock in memory.
pub mod Ensures
pub mod Steps
pub mod Creating
pub mod Changing
pub mod Histories
