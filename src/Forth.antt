-- ===== src/Forth.antt =====
-- kernel/forth/forth.c, the Forth interpreter.
pub mod Numbers
pub mod Vm
pub mod Words
pub mod Exec
pub mod Compile
pub mod Eval
pub mod Safety
mod Tests
