-- ===== src/Outbox.antt =====
-- The transactional outbox: the status of a row, its retries (crates/br-core-integration), and
-- the relay that publishes the pending rows (crates/br-util-nats-fabric/src/outbox).
pub mod Tests
pub mod Retry
pub mod Status
pub mod Report
pub mod MessageId
pub mod Table
pub mod Relay
