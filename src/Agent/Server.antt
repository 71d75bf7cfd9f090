-- ===== src/Agent/Server.antt =====
-- src/auth/agent/server.rs: the answers to requests, and the server loop. A broadcast is recorded
-- as an event; its failure is only logged.
pub mod Handler
pub mod Loop
pub mod Keeps
pub mod Release
pub mod Provenance
pub mod Trace
pub mod Sessions
