-- ===== src/Broker.antt =====
-- internal/broker: the durable Foundry broker.
pub mod Types
pub mod Platform
pub mod Context
pub mod Ledger
pub mod Process
pub mod Control
pub mod Reserve
pub mod Invoke
pub mod Response
pub mod Reconcile
pub mod View
pub mod Sound
pub mod Progress
pub mod System
pub mod Tests
pub mod Validity
