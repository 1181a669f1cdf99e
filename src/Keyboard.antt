-- ===== src/Keyboard.antt =====
-- kernel/drivers/keyboard.c: the keyboard driver.
pub mod Scancodes
pub mod Driver
mod Buffer
mod Tests
