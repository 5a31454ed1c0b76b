-- ===== src/Scope/Declaration.antt =====
-- crates/br-core-scope/src/declaration.rs: a service's declaration of its scopes.
pub mod Laws
pub mod Errors
use br_rust_common.Base.{
  Text, not, Result, ok, err, ◌>>=◌, ◌>>◌, List, [], ◌∷◌, contains, text_Eq, if◌then◌else◌,
}
use br_rust_common.Scope.Error.{
  ScopeDeclarationError, scope_prefix_mismatch, duplicate_scope_in_declaration,
}
use br_rust_common.Scope.ServiceKey.{ServiceKey}
use br_rust_common.Scope.ScopeKey.{is_owned_by, service_segment}
use br_rust_common.Scope.Spec.{ScopeSpec, ServiceManifest}

pub record ScopeDeclaration : Type 0 where
  pub manifest : ServiceManifest
  pub scopes : List ScopeSpec

-- The loop of `new`; `seen` is the `HashSet` of the keys met so far.
unfoldable pub check_scopes :
    ServiceKey → List Text → List ScopeSpec → Result (Unit {0}) ScopeDeclarationError
check_scopes service seen [] = ok tt
check_scopes service seen (spec ∷ scopes) =
    if not (is_owned_by spec.key service)
    then err (scope_prefix_mismatch (service_segment spec.key) service.text)
    else if contains seen spec.key.raw
    then err (duplicate_scope_in_declaration spec.key.raw)
    else check_scopes service (spec.key.raw ∷ seen) scopes

unfoldable pub new :
    ServiceManifest → List ScopeSpec → Result ScopeDeclaration ScopeDeclarationError
new manifest scopes = do
  check_scopes manifest.key [] scopes
  ok (record { manifest = manifest; scopes = scopes })
