-- ===== src/Boot.antt =====
-- crates/br-util-boot: the environment that a service reads when it starts.
pub mod Environment
pub mod Url
pub mod Reader
pub mod BootEnv
mod Tests
