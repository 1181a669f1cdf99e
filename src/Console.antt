-- ===== src/Console.antt =====
-- kernel/gui: the text widgets of the consoles and of the editor.
pub mod Buffer
pub mod Fits
pub mod Input
pub mod History
pub mod Output
pub mod Editor
pub mod TextField
pub mod Typing
pub mod Editing
pub mod Undo
pub mod Recall
pub mod Scrollback
mod Tests
