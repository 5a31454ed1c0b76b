-- ===== src/Registry/State.antt =====
-- crates/br-identity-domain/src/registry.rs: the `ScopeRegistry` aggregate.
-- `none` is a panic: the `expect` in `register_declaration`. A `u64` wraps at 2 ^ 64.
pub mod Lookup
pub mod Valid
pub mod Loop
pub mod Ensure
pub mod Register
pub mod Events
pub mod Again
pub mod Hydrate
pub mod Stored
use br_rust_common.Base.{
  ℕ, ◌+◌, ◌%◌, ◌^◌, Bool, not, ◌&&◌, Text, List, [], ◌∷◌, ◌++◌, Option, none, some, find, contains,
  ◌==◌, Result, ok, err, ◌>>=◌, if◌then◌else◌, is_empty,
}
use mathlib.Core.Option
use br_rust_common.Scope.Error.{ScopeDeclarationError, scope_owned_by_another_service}
use br_rust_common.Scope.ServiceKey.{ServiceKey, service_key_Eq}
use br_rust_common.Scope.ScopeKey.{ScopeKey, scope_key_Eq, is_owned_by}
use br_rust_common.Scope.Spec.{ScopeSpec, ServiceManifest}
use br_rust_common.Scope.Declaration.{ScopeDeclaration}
use br_rust_common.Registry.Service
use br_rust_common.Registry.Service.{RegisteredService, push_scope, owns_key, key}
use br_rust_common.Registry.Event.{
  RegistryEvent, service_registered, scope_registered, CommandResult, no_result, from_events,
  RegistryHydrationError, duplicate_scope, duplicate_service, scope_owner_mismatch,
}

pub record ScopeRegistry : Type 0 where
  pub version : ℕ
  pub services : List RegisteredService

abbrev pub new : ScopeRegistry
new = record { version = 0; services = [] }

-- The inner loop of `hydrate`: the scopes of one service, with the set of the keys met so far.
unfoldable pub hydrate_scopes :
    ServiceManifest
    → RegisteredService
    → List ScopeKey
    → List ScopeSpec
    → Result (RegisteredService × List ScopeKey) RegistryHydrationError
hydrate_scopes manifest service seen [] = ok (service, seen)
hydrate_scopes manifest service seen (spec ∷ scopes) =
    if not (is_owned_by spec.key manifest.key)
    then err (scope_owner_mismatch spec.key manifest.key)
    else if contains seen spec.key
    then err (duplicate_scope spec.key)
    else hydrate_scopes manifest (push_scope service spec) (spec.key ∷ seen) scopes

-- The outer loop; `registered` grows at its end.
unfoldable pub hydrate_services :
    List RegisteredService
    → List ScopeKey
    → List ServiceKey
    → List (ServiceManifest × List ScopeSpec)
    → Result (List RegisteredService) RegistryHydrationError
hydrate_services registered seen seen_services [] = ok registered
hydrate_services registered seen seen_services ((manifest, scopes) ∷ services) =
    if contains seen_services manifest.key
    then err (duplicate_service manifest.key)
    else (hydrate_scopes manifest (Service.new manifest) seen scopes
        >>= λ (r : RegisteredService × List ScopeKey).
            hydrate_services (registered ++ r.0 ∷ []) r.1 (manifest.key ∷ seen_services) services)

unfoldable pub hydrate :
    ℕ → List (ServiceManifest × List ScopeSpec) → Result ScopeRegistry RegistryHydrationError
hydrate version services = do
  registered ← hydrate_services [] [] [] services
  ok (record { version = version; services = registered })

unfoldable pub find_in : List RegisteredService → ServiceKey → Option RegisteredService
find_in services k = find (λ svc. key svc == k) services

unfoldable pub find_service : ScopeRegistry → ServiceKey → Option RegisteredService
unfolding find_in
find_service registry k = find_in registry.services k

unfoldable pub owner_in : List RegisteredService → ScopeKey → Option ServiceKey
owner_in services k = Option.map key (find (λ svc. owns_key svc k) services)

unfoldable pub owner_of : ScopeRegistry → ScopeKey → Option ServiceKey
unfolding owner_in
owner_of registry k = owner_in registry.services k

-- A write through the `&mut` that `service_mut` gives: to the first service with the key.
unfoldable pub write_service :
    List RegisteredService → ServiceKey → RegisteredService → List RegisteredService
write_service [] k service = []
write_service (svc ∷ services) k service =
    if key svc == k then service ∷ services else svc ∷ write_service services k service

abbrev pub scope_registered_event : ScopeSpec → ServiceKey → RegistryEvent
scope_registered_event spec owning_service =
    scope_registered spec.key owning_service spec.label_key spec.description_key spec.platform_only

-- The first loop of `register_declaration`: no scope may belong to another service.
unfoldable pub check_owners :
    ScopeRegistry → ServiceKey → List ScopeSpec → Result (Unit {0}) ScopeDeclarationError
check_owners registry declaring [] = ok tt
check_owners registry declaring (spec ∷ scopes) = elim (owner_of registry spec.key) [
  | none ↦ check_owners registry declaring scopes
  | some owner ↦
      if not (owner == declaring)
      then err (scope_owned_by_another_service spec.key.raw owner.text)
      else check_owners registry declaring scopes
]

-- The service is added if it is not there.
unfoldable pub ensure_service :
    List RegisteredService → ServiceManifest → List RegisteredService × List RegistryEvent
ensure_service services manifest = elim (find_in services manifest.key) [
  | none ↦ (
    services ++ Service.new manifest ∷ [],
    service_registered manifest.key manifest.label_key manifest.description_key ∷ [],
  )
  | some svc ↦ (services, [])
]

-- The second loop: each scope that the service does not own yet is pushed.
unfoldable pub register_scopes :
    ServiceKey
    → List RegisteredService
    → List RegistryEvent
    → List ScopeSpec
    → Option (List RegisteredService × List RegistryEvent)
register_scopes declaring services events [] = some (services, events)
register_scopes declaring services events (spec ∷ scopes) = elim (find_in services declaring) [
  | none ↦ none
  | some service ↦
      if owns_key service spec.key
      then register_scopes declaring services events scopes
      else register_scopes declaring (write_service services declaring (push_scope service spec))
          (events ++ scope_registered_event spec declaring ∷ []) scopes
]

abbrev pub finish :
    ScopeRegistry → List RegisteredService × List RegistryEvent → ScopeRegistry × CommandResult
finish registry (services, events) =
    if is_empty events then (record registry { services = services }, no_result) else (
      record { version = (registry.version + 1) % 2 ^ 64; services = services },
      from_events events,
    )

abbrev pub Registered : Type 0
Registered = ScopeRegistry × Result CommandResult ScopeDeclarationError

apply_declaration : ScopeRegistry → ScopeDeclaration → Option Registered
apply_declaration registry declaration =
    let (services, events) = ensure_service registry.services declaration.manifest in
    Option.map
      (λ (done : List RegisteredService × List RegistryEvent).
        (let (after, result) = finish registry done in (after, ok result)))
      (register_scopes declaration.manifest.key services events declaration.scopes)

-- The registry that the call leaves, and its result.
unfoldable pub register_declaration : ScopeRegistry → ScopeDeclaration → Option Registered
unfolding apply_declaration
register_declaration registry declaration =
    elim (check_owners registry declaration.manifest.key declaration.scopes) [
      | err reason ↦ some (registry, err reason)
      | ok _ ↦ apply_declaration registry declaration
    ]
