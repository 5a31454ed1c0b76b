-- ===== src/Postgres.antt =====
-- crates/br-util-postgres: roles, grants, passwords and retries on the catalog.
pub mod Role
pub mod Retry
pub mod Net
pub mod Migrations
mod Tests
