-- ===== src/Rdp.antt =====
-- src/process/rdp_builder.rs: the command of an RDP client, from a host of the inventory.
pub mod Arguments
pub mod Launch
pub mod Payload
pub mod Laws
pub mod Examples
