-- ===== src/Fabric/Kv.antt =====
-- crates/br-util-nats-fabric/src/kv: the key/value projection.
pub mod Key
pub mod Reconcile
pub mod Orphans
pub mod Store
pub mod Projection
pub mod Supervisor
pub mod Publisher
mod Tests
