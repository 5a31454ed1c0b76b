-- ===== src/Directory/Ledger.antt =====
-- crates/br-util-directory/src/consumer/ledger.rs: which migrations are still to be run. The tables
-- are lists of their rows; a statement that fails, and what a migration's SQL does, are arguments.
pub mod Laws
use br_rust_common.Base.{
  ℕ, Bool, true, false, ◌&&◌, Text, List, [], ◌∷◌, ◌++◌, Option, none, some, Result, ok, err, ◌>>=◌,
  nat_Eq, nat_eq, text_Eq, ◌==◌, lookup, any, if◌then◌else◌, contains,
}

pub record Migration : Type 0 where
  pub version : ℕ
  pub checksum : Text
  pub sql : Text

-- A row of sqlx's own table `_sqlx_migrations`.
pub record LegacyRow : Type 0 where
  pub version : ℕ
  pub checksum : Text
  pub success : Bool

-- The database: `_br_directory_migrations`, by the version, the legacy table when there is one, and
-- the rest of the schema, which the migrations change.
pub record Database {ℓ} (S : Type ℓ) : Type ℓ where
  pub recorded : List (ℕ × Text)
  pub legacy : Option (List LegacyRow)
  pub schema : S

pub data LedgerError {κ} (D : Type κ) : Type κ where
  version_mismatch : ℕ → LedgerError D
  duplicate_version : ℕ → LedgerError D
  database : D → LedgerError D

module _ {ℓ κ} {S : Type ℓ} {D : Type κ} (execute : Text → S → Result S D) where
  unfoldable pub adopted_from_legacy : Database S → Migration → Bool
  adopted_from_legacy db migration = elim db.legacy [
    | none ↦ false
    | some rows ↦
        any
          (λ row.
            nat_eq row.version migration.version
            && (row.checksum == migration.checksum && row.success))
          rows
  ]

  -- The `INSERT`; the version is the primary key.
  unfoldable pub record_migration : Database S → Migration → Result (Database S) (LedgerError D)
  record_migration db migration = elim (lookup db.recorded migration.version) [
    | some _ ↦ err (duplicate_version migration.version)
    | none ↦ ok (record db { recorded = (migration.version, migration.checksum) ∷ db.recorded })
  ]

  abbrev run_sql : Database S → Migration → Result (Database S) (LedgerError D)
  run_sql db migration = elim (execute migration.sql db.schema) [
    | ok schema ↦ ok (record db { schema = schema })
    | err e ↦ err (database e)
  ]

  -- One turn of the loop; `recorded` is what was read before it.
  unfoldable pub apply_one :
      List (ℕ × Text) → Database S → Migration → Result (Database S) (LedgerError D)
  apply_one recorded db migration = elim (lookup recorded migration.version) [
    | some checksum ↦
        if checksum == migration.checksum then ok db else err (version_mismatch migration.version)
    | none ↦
        if adopted_from_legacy db migration
        then record_migration db migration
        else run_sql db migration >>= λ after. record_migration after migration
  ]

  unfoldable pub apply_each :
      List (ℕ × Text) → Database S → List Migration → Result (Database S) (LedgerError D)
  apply_each recorded db [] = ok db
  apply_each recorded db (migration ∷ migrations) =
      apply_one recorded db migration >>= λ after. apply_each recorded after migrations

  unfoldable pub apply_pending : Database S → List Migration → Result (Database S) (LedgerError D)
  apply_pending db migrations = apply_each db.recorded db migrations
