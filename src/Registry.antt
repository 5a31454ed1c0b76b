-- ===== src/Registry.antt =====
-- crates/br-identity-domain: the registry of the scopes that services have declared.
pub mod Tests
pub mod Service
pub mod Event
pub mod State
pub mod Handler
