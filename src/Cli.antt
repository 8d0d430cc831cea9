-- ===== src/Cli.antt =====
-- The terminal client, src/cli.
pub mod Receiver
