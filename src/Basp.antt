-- ===== src/Basp.antt =====
-- The binary actor system protocol: caf/net/basp.
pub mod MessageType
pub mod Ec
pub mod ConnectionState
pub mod Header
pub mod MessageQueue
pub mod Application
mod Tests
