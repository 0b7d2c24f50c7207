-- ===== src/Ipfs.antt =====
-- src/routes/ipfs.routes.ts: the proxy in front of the IPFS gateways.
pub mod Types
pub mod Paths
pub mod Slots
pub mod Cooldown
pub mod Stream
pub mod Handler
pub mod Tests
