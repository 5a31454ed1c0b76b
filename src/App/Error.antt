-- ===== src/App/Error.antt =====
-- crates/br-identity-app/src/error.rs and conflict.rs. `sqlx::Error` is its message.
use br_rust_common.Base.{ℕ, Bool, true, false, Text}
use br_rust_common.Registry.Event.{RegistryHydrationError}
use br_rust_common.Fabric.Error.{FabricError}

pub data AppError : Type 0 where
  persistence : Text → AppError
  hydration : RegistryHydrationError → AppError
  publish_failed : FabricError → AppError
  missing_registry_head : AppError
  conflict_retries_exhausted : ℕ → AppError
  corrupt_stored_key : Text → AppError

unfoldable pub is_permanent : AppError → Bool
is_permanent (hydration e) = true
is_permanent (corrupt_stored_key value) = true
is_permanent e = false

pub data SaveOutcome : Type 0 where
  persisted version_conflict : SaveOutcome
  scope_conflict : Text → Text → SaveOutcome
