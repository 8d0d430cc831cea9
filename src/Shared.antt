-- ===== src/Shared.antt =====
-- The code that the server, the command line and the browser share, src/shared.
pub mod Text
pub mod FileNames
pub mod Codes
pub mod Messages
pub mod Json
pub mod Base64
pub mod Limits
pub mod PublicManifest
pub mod Chunks
pub mod SignalReplay
pub mod ControlWaiter
pub mod SignalQueue
pub mod Transfer
pub mod Control
pub mod Protocol
