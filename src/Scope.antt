-- ===== src/Scope.antt =====
-- crates/br-core-scope: the contract by which a service declares its permission scopes.
pub mod Tests
pub mod Error
pub mod ServiceKey
pub mod ScopeKey
pub mod Spec
pub mod Declaration
pub mod Raw
pub mod Messages
