-- ===== src/Postgres/Retry.antt =====
-- crates/br-util-postgres/src/catalog_retry.rs: a statement on the catalog is tried again when
-- another session changed the catalog at the same time. The attempt is an argument: a function of
-- the state it runs on. The delays slept are returned, in order.
pub mod Laws
use br_rust_common.Base.{
  ℕ, zero, suc, ◌+◌, ◌*◌, ◌≤◌, ◌<◌, Bool, true, false, ◌&&◌, ◌||◌, Text, bytes, List, [], ◌∷◌,
  Option, none, some, Result, ok, err, ltb, ◌==◌, text_Eq, if◌then◌else◌, ◌≡◌, refl, arith, length,
  map, Result-cases, Bool-cases, inl, inr, ◌⊎◌, ap, ◌++◌,
}
use br_rust_common.Postgres.Role.{PostgresError, db}

abbrev pub max_attempts : ℕ
max_attempts = 6

-- `Duration::from_millis(25)`, in milliseconds.
abbrev pub backoff_step : ℕ
backoff_step = 25

-- `sqlx::Error`: a database error by its code, or another.
pub data SqlxError : Type 0 where
  database : (code : Option Text) → SqlxError
  other : Text → SqlxError

unfoldable pub is_concurrent_catalog_ddl : Option Text → Bool
is_concurrent_catalog_ddl none = false
is_concurrent_catalog_ddl (some code) =
    code == bytes "42710" || (code == bytes "23505" || code == bytes "XX000")

abbrev pub is_retried : ℕ → SqlxError → Bool
is_retried attempts (database code) = ltb attempts max_attempts && is_concurrent_catalog_ddl code
is_retried attempts (other _) = false

pub record Run {ℓ} (S : Type ℓ) : Type ℓ where
  pub result : Result (Unit {0}) (PostgresError SqlxError)
  pub state : S
  pub attempts : ℕ
  pub slept : List ℕ

module _ {ℓ} {S : Type ℓ} (attempt : S → Result (Unit {0}) SqlxError × S) where
  -- The loop, from `attempts` attempts made; `fuel` bounds the turns.
  unfoldable pub retry_from : ℕ → ℕ → List ℕ → S → Option (Run S)
  retry_from zero attempts slept s = none
  retry_from (suc fuel) attempts slept s =
      let now = suc attempts in
      let (r, after) = attempt s in
      elim r [
        | ok _ ↦ some (record { result = ok tt; state = after; attempts = now; slept = slept })
        | err e ↦ elim (is_retried now e) [
          | true ↦ retry_from fuel now (slept ++ backoff_step * now ∷ []) after
          | false ↦
              some (record { result = err (db e); state = after; attempts = now; slept = slept })
        ]
      ]

  unfoldable pub retry_concurrent_catalog_ddl : S → Option (Run S)
  retry_concurrent_catalog_ddl s = retry_from max_attempts 0 [] s
