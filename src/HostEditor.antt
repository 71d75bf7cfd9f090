-- ===== src/HostEditor.antt =====
-- The form for one host of the inventory and the menu of the host tree (src/tui/state/host_editor.rs).
pub mod Menu
pub mod Fields
pub mod Selecting
pub mod Choices
pub mod Typing
pub mod Parsing
pub mod Submission
pub mod Opening
pub mod Layout
pub mod Mouse
pub mod Runs
pub mod Examples
