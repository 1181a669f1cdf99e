-- ===== src/Audio.antt =====
-- v2/core/kernel/kernel_audio.c: the audio commands of the second kernel and their queue.
pub mod Commands
pub mod Ring
pub mod Mixer
mod Queue
mod Safety
mod Active
mod Tests
