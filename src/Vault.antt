-- ===== src/Vault.antt =====
-- The encrypted password vault (src/auth/vault.rs).
pub mod Types
pub mod Disk
pub mod Keys
pub mod Reading
pub mod Writing
pub mod EntryPaths
pub mod Secrets
pub mod Passwords
pub mod Examples
