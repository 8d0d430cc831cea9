-- ===== src/Server.antt =====
-- The signaling server, src/server.
pub mod RateLimit
pub mod Policy
pub mod Admission
pub mod State
pub mod Sockets
pub mod Cleanup
pub mod Pairing
pub mod Relaying
pub mod Static
pub mod Events
