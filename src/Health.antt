-- ===== src/Health.antt =====
-- src/services/rpc/healthMonitor.ts: the state of the RPC endpoints.
pub mod Types
pub mod Progress
pub mod Poll
pub mod Routing
pub mod Ready
pub mod Verified
pub mod Runs
pub mod Identity
pub mod Tests
