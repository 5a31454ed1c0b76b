-- ===== src/Directory.antt =====
-- crates/br-core-directory and crates/br-util-directory: the directory of users, groups and service
-- accounts that a service keeps.
pub mod Keys
pub mod Meta
pub mod User
pub mod Group
pub mod Snapshot
pub mod Ledger
pub mod Health
mod Tests
