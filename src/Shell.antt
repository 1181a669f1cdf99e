-- ===== src/Shell.antt =====
-- kernel/gui/shell.c: the command line of the shell.
pub mod Line
pub mod Paths
pub mod Commands
mod Rooted
mod Bounds
mod Fuel
mod Tests
