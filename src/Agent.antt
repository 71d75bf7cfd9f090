-- ===== src/Agent.antt =====
-- The unlock agent (src/auth/agent, src/auth/ipc.rs): it holds the vault's data key in memory and
-- serves secrets against short-lived tokens.
pub mod Types
pub mod Runtime
pub mod Server
pub mod Client
mod Examples
