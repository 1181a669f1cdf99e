-- ===== src/Forth/Safety.antt =====
-- Safety of the interpreter of kernel/forth/forth.c: bounds, the invariant of compiled code, runs, lines.
pub mod Fine
pub mod Basics
pub mod Synth
pub mod Primitives
pub mod Code
pub mod Running
pub mod Open
pub mod Valid
pub mod Compiling
pub mod Tokens
pub mod Definitions
pub mod Immediate
pub mod Buffers
pub mod Lines
