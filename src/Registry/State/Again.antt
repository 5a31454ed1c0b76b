-- ===== src/Registry/State/Again.antt =====
-- crates/br-identity-domain/src/registry.rs: the events of a declaration, and declaring again.
use br_rust_common.Base.{
  true, List, [], ◌∷◌, ◌++◌, none, some, contains, distinct, ◌≡◌, refl, map, arith, all, ok,
  append-nil, ◌∙◌,
}
use br_rust_common.Scope.ScopeKey.{ScopeKey, scope_key_Eq, scope_key_eq_iff}
use br_rust_common.Scope.Spec.{ScopeSpec, ServiceManifest}
use br_rust_common.Scope.Declaration.{ScopeDeclaration}
use br_rust_common.Scope.Declaration.Laws.{IsConsistent}
use br_rust_common.Registry.Service
use br_rust_common.Registry.Service.{RegisteredService, owns_key, key}
use br_rust_common.Registry.Event.{
  RegistryEvent, service_registered, CommandResult, no_result, from_events,
}
use br_rust_common.Registry.State.{
  ScopeRegistry, find_in, find_service, ensure_service, finish, register_declaration,
  scope_registered_event,
}
use br_rust_common.Registry.State.Lookup.{
  key-find_in, find_in-write_service, write_service_self, find_in-append,
}
use br_rust_common.Registry.State.Valid.{scope_of, IsRegistry}
use br_rust_common.Registry.State.Loop.{fresh_scopes, with_scopes}
use br_rust_common.Registry.State.Ensure.{ensure_service-Ensured, distinct-scope_of}
use br_rust_common.Registry.State.Register.{
  outcome_of, after_of, register_declaration-eq, owns_key-with_scopes, services-finish,
  outcome_of-IsServices,
}
use br_rust_common.Registry.State.Events.{fresh_scopes-eq-nil, fresh_scopes-new}

events-finish :
    (registry : ScopeRegistry) (l : List RegisteredService) (events : List RegistryEvent)
    → (finish registry (l, events)).1.events ≡ events
unfolding from_events
events-finish registry l [] = refl
events-finish registry l (e ∷ events) = refl

ensure_service-none :
    (l : List RegisteredService) (manifest : ServiceManifest)
    → find_in l manifest.key ≡ none
    → ensure_service l manifest ≡ (
      l ++ Service.new manifest ∷ [],
      service_registered manifest.key manifest.label_key manifest.description_key ∷ [],
    )
unfolding ensure_service
ensure_service-none l manifest e = ground arith

ensure_service-some :
    (l : List RegisteredService) (manifest : ServiceManifest) (svc : RegisteredService)
    → find_in l manifest.key ≡ some svc
    → ensure_service l manifest ≡ (l, [])
unfolding ensure_service
ensure_service-some l manifest svc e = ground arith

find_in-new :
    (l : List RegisteredService) (manifest : ServiceManifest)
    → find_in l manifest.key ≡ none
    → find_in (l ++ Service.new manifest ∷ []) manifest.key ≡ some (Service.new manifest)
unfolding Service.new
find_in-new l manifest h = find_in-append l (Service.new manifest) h

abbrev pub scope_events : ScopeDeclaration → List ScopeSpec → List RegistryEvent
scope_events d scopes = map (λ spec. scope_registered_event spec d.manifest.key) scopes

module _ (registry after : ScopeRegistry) (d : ScopeDeclaration) (result : CommandResult)
    (valid : IsRegistry registry) (consistent : IsConsistent d.manifest.key d.scopes)
    (call : register_declaration registry d ≡ some (after, ok result)) where
  result-eq :
      (svc : RegisteredService)
      → find_in (ensure_service registry.services d.manifest).0 d.manifest.key ≡ some svc
      → ((after_of registry d svc).0 ≡ after) × ((after_of registry d svc).1 ≡ result)
  result-eq svc f = ground (arith, register_declaration-eq registry d svc valid consistent f, call)

  events-eq :
      (svc : RegisteredService)
      → find_in (ensure_service registry.services d.manifest).0 d.manifest.key ≡ some svc
      → result.events ≡ (outcome_of registry d svc).1
  events-eq svc f =
      rw (← (result-eq svc f).1)
        (events-finish registry (outcome_of registry d svc).0 (outcome_of registry d svc).1)

  -- The first declaration of a service: the events are the service, then each declared scope in
  -- the order of the declaration.
  pub events_of_new_service :
      find_service registry d.manifest.key ≡ none
      → result.events
        ≡ service_registered d.manifest.key d.manifest.label_key d.manifest.description_key
          ∷ scope_events d d.scopes
  unfolding find_service outcome_of
  events_of_new_service h =
      let e = ensure_service-none registry.services d.manifest h in
      let f : find_in (ensure_service registry.services d.manifest).0 d.manifest.key
          ≡ some (Service.new d.manifest) =
        rw e (find_in-new registry.services d.manifest h) in
      events-eq (Service.new d.manifest) f ∙ ground (arith, e, fresh_scopes-new d.manifest d.scopes)

  -- A later declaration: the events are the scopes that the service did not own.
  pub events_of_known_service :
      (svc : RegisteredService)
      → find_service registry d.manifest.key ≡ some svc
      → result.events ≡ scope_events d (fresh_scopes svc d.scopes)
  unfolding find_service outcome_of
  events_of_known_service svc h =
      let e = ensure_service-some registry.services d.manifest svc h in
      events-eq svc (rw e h) ∙ ground (arith, e)

  services-after :
      (svc : RegisteredService)
      → find_in (ensure_service registry.services d.manifest).0 d.manifest.key ≡ some svc
      → after.services ≡ (outcome_of registry d svc).0
  services-after svc f =
      rw (← (result-eq svc f).0) (services-finish registry (outcome_of registry d svc))

all-contains :
    (declared : List ScopeKey) (k : ScopeKey) (scopes : List ScopeSpec)
    → all (λ spec. contains declared spec.key) scopes ≡ true
    → all (λ spec. contains (k ∷ declared) spec.key) scopes ≡ true
all-contains declared k [] h = refl
all-contains declared k (spec ∷ scopes) h = ground (arith, all-contains declared k scopes)

all_declared :
    (scopes : List ScopeSpec) → all (λ spec. contains (map scope_of scopes) spec.key) scopes ≡ true
all_declared [] = refl
all_declared (spec ∷ scopes) = ground (
  arith,
  all-contains (map scope_of scopes) spec.key scopes (all_declared scopes),
  scope_key_eq_iff spec.key spec.key,
)

owns_all :
    (svc : RegisteredService) (declared scopes : List ScopeSpec)
    → distinct (map scope_of declared) ≡ true
    → all (λ spec. contains (map scope_of declared) spec.key) scopes ≡ true
    → all (λ spec. owns_key (with_scopes svc (fresh_scopes svc declared)) spec.key) scopes ≡ true
owns_all svc declared [] u h = refl
owns_all svc declared (spec ∷ scopes) u h =
    ground (arith, owns_key-with_scopes svc declared spec.key u, owns_all svc declared scopes u)

-- A declaration all of whose scopes the service owns already.
settled :
    (registry : ScopeRegistry) (d : ScopeDeclaration) (svc : RegisteredService)
    → IsRegistry registry
    → IsConsistent d.manifest.key d.scopes
    → find_in registry.services d.manifest.key ≡ some svc
    → all (λ spec. owns_key svc spec.key) d.scopes ≡ true
    → register_declaration registry d ≡ some (registry, ok no_result)
unfolding outcome_of
settled registry d svc v c f a =
    let e = ensure_service-some registry.services d.manifest svc f in
    let g : find_in (ensure_service registry.services d.manifest).0 d.manifest.key ≡ some svc =
      rw e f in
    ground (
      arith,
      register_declaration-eq registry d svc v c g,
      e,
      fresh_scopes-eq-nil svc d.scopes a,
      append-nil svc.scopes,
      write_service_self registry.services d.manifest.key svc f,
    )

-- Declaring again what was accepted changes nothing: no event, the same registry and version.
pub register_declaration-again :
    (registry after : ScopeRegistry) (d : ScopeDeclaration) (result : CommandResult)
    → IsRegistry registry
    → IsConsistent d.manifest.key d.scopes
    → register_declaration registry d ≡ some (after, ok result)
    → register_declaration after d ≡ some (after, ok no_result)
register_declaration-again registry after d result v c call =
    let e = ensure_service-Ensured registry.services d.manifest in
    let s = services-after registry after d result v c call e.svc e.found in
    settled after d (with_scopes e.svc (fresh_scopes e.svc d.scopes))
      (rw s (outcome_of-IsServices registry d e.svc v c e.found)) c
      (rw s (
        unfold outcome_of in
        find_in-write_service (ensure_service registry.services d.manifest).0 d.manifest.key e.svc
          (with_scopes e.svc (fresh_scopes e.svc d.scopes)) e.found
          (key-find_in (ensure_service registry.services d.manifest).0 d.manifest.key e.svc
            e.found)))
      (owns_all e.svc d.scopes d.scopes (distinct-scope_of d.scopes c.unique)
        (all_declared d.scopes))
