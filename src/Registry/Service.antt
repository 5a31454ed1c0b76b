-- ===== src/Registry/Service.antt =====
-- crates/br-identity-domain/src/service.rs and identity.rs.
use br_rust_common.Base.{Bool, Text, List, [], ◌∷◌, ◌++◌, any, ◌==◌, Result, ok, err}
use br_rust_common.Scope.ServiceKey
use br_rust_common.Scope.ServiceKey.{ServiceKey}
use br_rust_common.Scope.ScopeKey.{ScopeKey, scope_key_Eq}
use br_rust_common.Scope.Spec.{ScopeSpec, ServiceManifest}
use br_rust_common.Scope.Error.{KeyValidationError}

pub record RegisteredService : Type 0 where
  pub manifest : ServiceManifest
  pub scopes : List ScopeSpec

unfoldable pub new : ServiceManifest → RegisteredService
new manifest = record { manifest = manifest; scopes = [] }

unfoldable pub push_scope : RegisteredService → ScopeSpec → RegisteredService
push_scope service spec = record service { scopes = service.scopes ++ spec ∷ [] }

unfoldable pub owns_key : RegisteredService → ScopeKey → Bool
owns_key service key = any (λ owned. owned.key == key) service.scopes

abbrev pub key : RegisteredService → ServiceKey
key service = service.manifest.key

pub data RejectedIdentity : Type 0 where
  service : ServiceKey → RejectedIdentity
  unrepresentable : (raw : Text) → RejectedIdentity

identity_of : Text → Result ServiceKey KeyValidationError → RejectedIdentity
identity_of raw (ok k) = service k
identity_of raw (err e) = unrepresentable raw

unfoldable pub from_raw_key : Text → RejectedIdentity
unfolding identity_of
from_raw_key raw = identity_of raw (ServiceKey.new raw)
