-- ===== src/Auth.antt =====
-- crates/br-core-auth and crates/br-core-kernel/src/actor.rs: who a request acts for, and what
-- carries it.
pub mod Actor
pub mod Method
pub mod Passport
pub mod Cookie
pub mod Bearer
pub mod Metadata
pub mod Admit
mod Tests
