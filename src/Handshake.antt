-- ===== src/Handshake.antt =====
-- crates/br-util-scope-declaration and crates/br-util-axum-readiness: a service declares its scopes
-- when it starts, and is not ready before Identity accepts them.
pub mod Readiness
pub mod Declare
mod Tests
