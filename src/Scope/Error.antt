-- ===== src/Scope/Error.antt =====
-- crates/br-core-scope/src/error.rs.
use br_rust_common.Base.{ℕ, Text}

pub data KeyValidationError : Type 0 where
  empty : KeyValidationError
  too_long : (max actual : ℕ) → KeyValidationError
  invalid_charset malformed_segments : KeyValidationError

pub data ScopeDeclarationError : Type 0 where
  invalid_scope_key : (key : Text) (validation : KeyValidationError) → ScopeDeclarationError
  scope_prefix_mismatch : (scope_service declaring_service : Text) → ScopeDeclarationError
  duplicate_scope_in_declaration : (key : Text) → ScopeDeclarationError
  scope_owned_by_another_service : (key owner : Text) → ScopeDeclarationError
