-- ===== src/Rpc.antt =====
-- The RPC proxy: src/middleware/rpc-security.ts, src/services/rpc.service.ts, src/utils/qrl-address.ts.
pub mod Address
pub mod Methods
pub mod Logs
pub mod Params
pub mod Slots
pub mod Call
pub mod Failover
pub mod Execute
pub mod Tests
