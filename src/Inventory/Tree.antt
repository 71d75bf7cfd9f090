-- ===== src/Inventory/Tree.antt =====
-- src/inventory/tree.rs: an inventory with its includes is loaded into a tree of folders. A folder
-- that the code holds by reference is a function of the folder.
pub mod Folders
pub mod Loading
