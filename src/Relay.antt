-- ===== src/Relay.antt =====
-- src/relay: the channel manager of the QRL Connect relay.
pub mod Types
pub mod Ledger
pub mod Accounting
pub mod Budgets
pub mod Channels
pub mod Messages
pub mod Admission
pub mod Delivery
pub mod Expiry
pub mod Join
pub mod Lifecycle
pub mod Route
pub mod Run
pub mod Tests
