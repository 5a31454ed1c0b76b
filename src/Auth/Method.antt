-- ===== src/Auth/Method.antt =====
-- crates/br-core-auth/src/auth_method.rs: how a human signed in.
use br_rust_common.Base.{ℕ, Bool, true, false, Option, none, some}

pub data AuthMethod : Type 0 where
  jwt : AuthMethod
  pat : (token_id : ℕ) → AuthMethod

unfoldable pub is_pat : AuthMethod → Bool
is_pat (pat _) = true
is_pat jwt = false

unfoldable pub pat_token_id : AuthMethod → Option ℕ
pat_token_id (pat token_id) = some token_id
pat_token_id jwt = none
