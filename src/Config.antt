-- ===== src/Config.antt =====
-- src/config/index.ts: the configuration that is read from the environment.
pub mod Numbers
pub mod Endpoints
pub mod Mainnet
pub mod Tests
