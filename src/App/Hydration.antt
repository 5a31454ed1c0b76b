-- ===== src/App/Hydration.antt =====
-- crates/br-identity-app/src/hydration.rs: the rows of the store, grouped by service.
pub mod Laws
use br_rust_common.Base.{
  Bool, Text, List, [], ◌∷◌, ◌++◌, Option, none, some, Result, ok, err, ◌>>=◌, map_err, map,
  if◌then◌else◌, ◌==◌,
}
use mathlib.Core.Option
use br_rust_common.Scope.ServiceKey
use br_rust_common.Scope.ServiceKey.{ServiceKey, service_key_Eq}
use br_rust_common.Scope.ScopeKey
use br_rust_common.Scope.ScopeKey.{ScopeKey}
use br_rust_common.Scope.Spec.{ScopeSpec, ServiceManifest}
use br_rust_common.Registry.Event.{scope_owner_mismatch}
use br_rust_common.App.Error.{AppError, hydration, corrupt_stored_key}

-- The two tuples of columns.
pub record ServiceRow : Type 0 where
  pub service_key : Text
  pub label_key : Text
  pub description_key : Text

pub record ScopeRow : Type 0 where
  pub scope_key : Text
  pub owning_service : Text
  pub label_key : Text
  pub description_key : Text
  pub platform_only : Bool

unfoldable pub parse_service_key : Text → Result ServiceKey AppError
parse_service_key value = map_err (λ _. corrupt_stored_key value) (ServiceKey.new value)

unfoldable pub parse_scope_key : Text → Result ScopeKey AppError
parse_scope_key value = map_err (λ _. corrupt_stored_key value) (ScopeKey.new value)

abbrev pub Entry : Type 0
Entry = ServiceKey × ServiceManifest × List ScopeSpec

-- The first loop.
unfoldable pub read_services : List ServiceRow → Result (List Entry) AppError
read_services [] = ok []
read_services (row ∷ rows) = do
  service_key ← parse_service_key row.service_key
  let manifest : ServiceManifest = record {
    key = service_key;
    label_key = row.label_key;
    description_key = row.description_key;
  }
  services ← read_services rows
  ok ((service_key, manifest, []) ∷ services)

-- `iter_mut().find` and the push; `none` if no service has the key.
unfoldable pub push_to : List Entry → ServiceKey → ScopeSpec → Option (List Entry)
push_to [] owner spec = none
push_to ((k, manifest, scopes) ∷ services) owner spec =
    let rest = push_to services owner spec in
    if k == owner
    then some ((k, manifest, scopes ++ spec ∷ []) ∷ services)
    else Option.map (λ l. (k, manifest, scopes) ∷ l) rest

-- The second loop.
unfoldable pub read_scopes : List Entry → List ScopeRow → Result (List Entry) AppError
read_scopes services [] = ok services
read_scopes services (row ∷ rows) = do
  key ← parse_scope_key row.scope_key
  owner ← parse_service_key row.owning_service
  let spec : ScopeSpec = record {
    key = key;
    label_key = row.label_key;
    description_key = row.description_key;
    platform_only = row.platform_only;
  }
  elim (push_to services owner spec) [
    | some services' ↦ read_scopes services' rows
    | none ↦ err (hydration (scope_owner_mismatch spec.key owner))
  ]

abbrev pub without_key : Entry → ServiceManifest × List ScopeSpec
without_key (k, manifest, scopes) = (manifest, scopes)

unfoldable pub build_hydration_input :
    List ServiceRow → List ScopeRow → Result (List (ServiceManifest × List ScopeSpec)) AppError
build_hydration_input service_rows scope_rows = do
  services ← read_services service_rows
  services ← read_scopes services scope_rows
  ok (map without_key services)
