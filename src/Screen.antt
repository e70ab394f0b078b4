-- ===== src/Screen.antt =====
-- The screen of src/terminal/screen.rs: its state in State, its operations in the modules named
-- for them, and in Fits the shape that they keep.
pub mod State
pub mod Grid
pub mod Events
pub mod Cursor
pub mod Scroll
pub mod Erase
pub mod Draw
pub mod Sgr
pub mod Conform
pub mod AltScreen
pub mod Switches
pub mod Reports
pub mod Csi
pub mod Fits
mod Tests
