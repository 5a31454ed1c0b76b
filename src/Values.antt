-- ===== src/Values.antt =====
-- crates/br-core-values: texts in several languages.
pub mod Localized
mod Tests
