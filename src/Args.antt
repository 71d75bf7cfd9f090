-- ===== src/Args.antt =====
-- Validation of command-line values and reading of forwarded SSH arguments (src/args).
pub mod Validation
pub mod Ssh
mod Examples
