-- ===== src/Scope/Raw.antt =====
-- crates/br-core-scope/src/raw.rs: a declaration as it came over the wire, and its validation.
pub mod Laws
use br_rust_common.Base.{Bool, Text, Result, ok, err, ◌>>=◌, map_err, List, [], ◌∷◌, map}
use br_rust_common.Scope.Error.{KeyValidationError, ScopeDeclarationError, invalid_scope_key}
use br_rust_common.Scope.ServiceKey
use br_rust_common.Scope.ScopeKey
use br_rust_common.Scope.Spec.{ScopeSpec, ServiceManifest}
use br_rust_common.Scope.Declaration
use br_rust_common.Scope.Declaration.{ScopeDeclaration}

pub record RawServiceManifest : Type 0 where
  pub key : Text
  pub label_key : Text
  pub description_key : Text

pub record RawScopeSpec : Type 0 where
  pub key : Text
  pub label_key : Text
  pub description_key : Text
  pub platform_only : Bool

pub record RawScopeDeclaration : Type 0 where
  pub manifest : RawServiceManifest
  pub scopes : List RawScopeSpec

unfoldable pub validate_spec : RawScopeSpec → Result ScopeSpec ScopeDeclarationError
validate_spec raw = do
  key ← map_err (invalid_scope_key raw.key) (ScopeKey.new raw.key)
  ok (record {
    key = key;
    label_key = raw.label_key;
    description_key = raw.description_key;
    platform_only = raw.platform_only;
  })

-- The loop over the raw scopes.
unfoldable pub validate_specs : List RawScopeSpec → Result (List ScopeSpec) ScopeDeclarationError
validate_specs [] = ok []
validate_specs (raw ∷ scopes) = do
  spec ← validate_spec raw
  specs ← validate_specs scopes
  ok (spec ∷ specs)

unfoldable pub validate : RawScopeDeclaration → Result ScopeDeclaration ScopeDeclarationError
validate raw = do
  service_key ← map_err (invalid_scope_key raw.manifest.key) (ServiceKey.new raw.manifest.key)
  let manifest : ServiceManifest = record {
    key = service_key;
    label_key = raw.manifest.label_key;
    description_key = raw.manifest.description_key;
  }
  specs ← validate_specs raw.scopes
  Declaration.new manifest specs

unfoldable pub raw_of_spec : ScopeSpec → RawScopeSpec
raw_of_spec spec = record {
  key = spec.key.raw;
  label_key = spec.label_key;
  description_key = spec.description_key;
  platform_only = spec.platform_only;
}

-- `RawScopeDeclaration::from`.
unfoldable pub from : ScopeDeclaration → RawScopeDeclaration
unfolding raw_of_spec
from decl = record {
  manifest = record {
    key = decl.manifest.key.text;
    label_key = decl.manifest.label_key;
    description_key = decl.manifest.description_key;
  };
  scopes = map raw_of_spec decl.scopes;
}
