-- ===== src/Postgres/Tests.antt =====
-- Runs of the Postgres helpers on small inputs.
use br_rust_common.Base.{
  ℕ, zero, suc, true, false, ◌&&◌, bytes, List, [], ◌∷◌, none, some, Result, ok, err, split, all,
  ◌≡◌, refl, strip_prefix,
}
use br_rust_common.Postgres.Role.{
  alter_role_verifier_sql, validate_role_name, is_valid_role_name, is_safe_verifier,
}
use br_rust_common.Postgres.Role.Laws.{alter_role_verifier_sql-split}
use br_rust_common.Postgres.Retry.{
  SqlxError, database, Run, retry_concurrent_catalog_ddl, retry_from, is_concurrent_catalog_ddl,
}
use br_rust_common.Postgres.Retry.Laws.{retry_concurrent_catalog_ddl_total, IsRun}
use br_rust_common.Postgres.Migrations.{
  Migration, AppliedMigration, compare, is_current, is_current-compare, has_version, is_applied,
  is_none,
}

alter_role_verifier_sql-split_example :
    (split b'"' (bytes "ALTER ROLE \"app\" PASSWORD 'SCRAM-SHA-256$4096:x'")
      ≡ bytes "ALTER ROLE " ∷ bytes "app" ∷ bytes " PASSWORD 'SCRAM-SHA-256$4096:x'" ∷ [])
    × (split b'\'' (bytes "ALTER ROLE \"app\" PASSWORD 'SCRAM-SHA-256$4096:x'")
        ≡ bytes "ALTER ROLE \"app\" PASSWORD " ∷ bytes "SCRAM-SHA-256$4096:x" ∷ [] ∷ [])
unfolding alter_role_verifier_sql validate_role_name is_valid_role_name is_safe_verifier
    strip_prefix
alter_role_verifier_sql-split_example =
    alter_role_verifier_sql-split {D = ℕ} (bytes "app") (bytes "SCRAM-SHA-256$4096:x")
      (bytes "ALTER ROLE \"app\" PASSWORD 'SCRAM-SHA-256$4096:x'") refl

-- The attempt fails while the counter is below two.
abbrev flaky : ℕ → Result (Unit {0}) SqlxError × ℕ
flaky zero = (err (database (some (bytes "23505"))), 1)
flaky (suc zero) = (err (database (some (bytes "XX000"))), 2)
flaky (suc (suc n)) = (ok tt, suc (suc n))

abbrev flaky_run : Run ℕ
flaky_run = record { result = ok tt; state = 2; attempts = 3; slept = 25 ∷ 50 ∷ [] }

flaky_twice : retry_concurrent_catalog_ddl flaky 0 ≡ some flaky_run
unfolding retry_concurrent_catalog_ddl retry_from is_concurrent_catalog_ddl
flaky_twice = refl

retry_concurrent_catalog_ddl_total_example :
    (run : Run ℕ) × (retry_concurrent_catalog_ddl flaky 0 ≡ some run) × IsRun flaky 0 run
retry_concurrent_catalog_ddl_total_example = retry_concurrent_catalog_ddl_total flaky 0

abbrev embedded : List Migration
embedded =
    record { version = 1; checksum = bytes "c1"; is_down = false }
    ∷ record { version = 1; checksum = bytes "d1"; is_down = true }
    ∷ []

abbrev rows : List AppliedMigration
rows = record { version = 1; checksum = bytes "c1" } ∷ []

is_current-compare_example : is_current (compare embedded rows none) ≡ (
    all (is_applied rows) embedded
    && is_none none
    && all (λ row. has_version embedded row.version) rows)
is_current-compare_example = is_current-compare embedded rows none
