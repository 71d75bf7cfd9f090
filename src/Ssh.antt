-- ===== src/Ssh.antt =====
-- The launch of `ssh` for a host of the inventory (src/process/ssh_builder.rs, src/process/vault.rs).
pub mod Flags
pub mod Inspection
pub mod Synthesis
pub mod Access
pub mod Command
pub mod Examples
