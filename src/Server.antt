-- ===== src/Server.antt =====
-- src/relay/relayServer.ts: the Socket.IO server around the channel manager.
pub mod Limits
pub mod Types
pub mod Transport
pub mod Sockets
pub mod Drain
pub mod Joining
pub mod Messages
pub mod Control
pub mod Run
pub mod Counters
pub mod Answers
pub mod Tests
