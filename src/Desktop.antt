-- ===== src/Desktop.antt =====
-- v2/core/kernel: the windows, the overlay and the input router of the second kernel.
pub mod Windows
pub mod Overlay
pub mod Router
mod Below
mod Gesture
mod Search
mod Composite
mod Back
mod Owner
mod Registered
mod Focus
mod Slots
mod Tests
