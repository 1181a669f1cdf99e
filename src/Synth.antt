-- ===== src/Synth.antt =====
-- kernel/audio/synth.c: the software synthesiser.
pub mod Tables
pub mod Voice
pub mod Filter
pub mod Render
pub mod Setters
pub mod Safety
pub mod Histories
mod Envelope
mod Tests
