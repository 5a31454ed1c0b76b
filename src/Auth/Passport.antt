-- ===== src/Auth/Passport.antt =====
-- crates/br-core-auth/src/passport.rs and claims.rs: the passport of a request.
-- A JSON value is an argument `J`; a `Map` is the list of its entries, each key once, and serde's
-- reading of a value as an object or as a `Vec<String>` is an argument.
pub mod Laws
use br_rust_common.Base.{
  ℕ, Bool, true, false, Text, bytes, List, [], ◌∷◌, Option, none, some, Result, ok, err, any,
  text_Eq, ◌==◌, is_empty, length,
}
use br_rust_common.Auth.Actor.{Actor, UserId, ServiceAccountId, human, service}
use br_rust_common.Auth.Method.{AuthMethod, is_pat}
use br_rust_common.Fabric.Kv.Reconcile.{get}
use br_rust_common.Scope.ScopeKey
use br_rust_common.Scope.ScopeKey.{ScopeKey}

pub record PassportClaims {ℓ} (J : Type ℓ) : Type ℓ where
  pub map : List (Text × J)

pub data Passport {ℓ} (J : Type ℓ) : Type ℓ where
  human_passport :
      (user_id : ℕ) (is_super_admin is_active : Bool) (auth_method : AuthMethod)
      (impersonator : Option ℕ) (claims : PassportClaims J)
      → Passport J
  service_passport : (service_account_id : ℕ) (claims : PassportClaims J) → Passport J

abbrev pub scopes_claim_key : Text
scopes_claim_key = bytes "scopes"

abbrev is_some {ℓ} : {A : Type ℓ} → Option A → Bool
is_some none = false
is_some (some _) = true

module _ {ℓ} {J : Type ℓ} where
  -- `PassportClaims::from_value`, over serde's test for an object.
  unfoldable pub claims_from_value :
      (J → Option (List (Text × J))) → J → Result (PassportClaims J) J
  claims_from_value as_object value = elim (as_object value) [
    | some map ↦ ok (record { map = map })
    | none ↦ err value
  ]

  unfoldable pub get_claim : PassportClaims J → Text → Option J
  get_claim claims key = get claims.map key

  unfoldable pub claims_is_empty : PassportClaims J → Bool
  claims_is_empty claims = is_empty claims.map

  unfoldable pub claims_len : PassportClaims J → ℕ
  claims_len claims = length {A = Text × J} claims.map

  unfoldable pub with_impersonator : Passport J → ℕ → Passport J
  with_impersonator (human_passport user super active method _ claims) id =
      human_passport user super active method (some id) claims
  with_impersonator (service_passport account claims) id = service_passport account claims

  unfoldable pub actor_id : Passport J → ℕ
  actor_id (human_passport user _ _ _ _ _) = user
  actor_id (service_passport account _) = account

  unfoldable pub user_id : Passport J → Option ℕ
  user_id (human_passport user _ _ _ _ _) = some user
  user_id (service_passport _ _) = none

  unfoldable pub service_account_id : Passport J → Option ℕ
  service_account_id (human_passport _ _ _ _ _ _) = none
  service_account_id (service_passport account _) = some account

  unfoldable pub to_actor : Passport J → Actor
  to_actor (human_passport user _ _ _ _ _) = human (record { uuid = user })
  to_actor (service_passport account _) = service (record { uuid = account })

  unfoldable pub is_super_admin : Passport J → Bool
  is_super_admin (human_passport _ super _ _ _ _) = super
  is_super_admin (service_passport _ _) = false

  unfoldable pub is_active : Passport J → Bool
  is_active (human_passport _ _ active _ _ _) = active
  is_active (service_passport _ _) = true

  unfoldable pub auth_method : Passport J → Option AuthMethod
  auth_method (human_passport _ _ _ method _ _) = some method
  auth_method (service_passport _ _) = none

  unfoldable pub is_pat_passport : Passport J → Bool
  is_pat_passport p = elim (auth_method p) [ some m ↦ is_pat m | none ↦ false ]

  unfoldable pub impersonator_id : Passport J → Option ℕ
  impersonator_id (human_passport _ _ _ _ impersonator _) = impersonator
  impersonator_id (service_passport _ _) = none

  unfoldable pub is_impersonating : Passport J → Bool
  is_impersonating p = is_some (impersonator_id p)

  unfoldable pub claims_of : Passport J → PassportClaims J
  claims_of (human_passport _ _ _ _ _ claims) = claims
  claims_of (service_passport _ claims) = claims

  -- `claim::<T>`, over serde's reading of a value as a `T`.
  unfoldable pub claim {κ} : {T : Type κ} → (J → Option T) → Passport J → Text → Option T
  claim from_value p key = elim (get_claim (claims_of p) key) [
    | some v ↦ from_value v
    | none ↦ none
  ]

-- The `filter_map` of `scopes`.
unfoldable pub valid_scopes : List Text → List ScopeKey
valid_scopes [] = []
valid_scopes (raw ∷ raws) =
    let rest = valid_scopes raws in elim (ScopeKey.new raw) [ ok key ↦ key ∷ rest | err _ ↦ rest ]

module _ {ℓ} {J : Type ℓ} (as_strings : J → Option (List Text)) where
  -- `claim::<Vec<String>>(SCOPES_CLAIM_KEY).unwrap_or_default()`.
  unfoldable pub raw_scopes : Passport J → List Text
  raw_scopes p = elim (claim as_strings p scopes_claim_key) [ some raws ↦ raws | none ↦ [] ]

  unfoldable pub scopes : Passport J → List ScopeKey
  scopes p = valid_scopes (raw_scopes p)

  unfoldable pub has_scope : Passport J → ScopeKey → Bool
  has_scope p scope = any (λ raw. raw == scope.raw) (raw_scopes p)
