-- ===== src/Fabric.antt =====
-- crates/br-util-nats-fabric: messages over NATS by coordinates, and what is built on them.
pub mod Tests
pub mod Error
pub mod Decimal
pub mod Subject
pub mod Coverage
pub mod Kv
pub mod Consumer
