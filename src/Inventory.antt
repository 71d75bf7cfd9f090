-- ===== src/Inventory.antt =====
-- src/inventory: the host inventory, as a document that is edited, and as the tree that is loaded.
pub mod Value
pub mod Model
pub mod Edit
pub mod Parse
pub mod Patterns
pub mod Normalize
pub mod Tree
pub mod Examples
