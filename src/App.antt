-- ===== src/App.antt =====
-- crates/br-identity-app: the service around the registry.
pub mod Tests
pub mod Error
pub mod Hydration
pub mod Pipeline
