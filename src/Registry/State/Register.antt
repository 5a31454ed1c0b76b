-- ===== src/Registry/State/Register.antt =====
-- `ScopeRegistry::register_declaration` as a whole.
use br_rust_common.Base.{
  true, ◌||◌, List, [], ◌∷◌, ◌++◌, some, contains, distinct, ◌≡◌, inl, inr, map, arith, all,
  if◌then◌else◌, ok, Bool-cases, append-nil,
}
use br_rust_common.Scope.ServiceKey.{ServiceKey, service_key_Eq}
use br_rust_common.Scope.ScopeKey.{ScopeKey, scope_key_Eq, scope_key_eq_iff, is_owned_by}
use br_rust_common.Scope.Spec.{ScopeSpec}
use br_rust_common.Scope.Declaration.{ScopeDeclaration}
use br_rust_common.Scope.Declaration.Laws.{IsConsistent}
use br_rust_common.Registry.Service.{RegisteredService, push_scope, owns_key, key}
use br_rust_common.Registry.Event.{RegistryEvent, CommandResult}
use br_rust_common.Registry.State.{
  ScopeRegistry, find_in, owner_in, owner_of, write_service, ensure_service, finish,
  register_declaration, scope_registered_event,
}
use br_rust_common.Registry.State.Lookup.{key-find_in, map-write_service, owner_in-write_service}
use br_rust_common.Registry.State.Valid.{
  scope_of, IsService, IsServices, IsRegistry, All-OwnsPrefix, All-write_service, find_in-IsService,
  push_scope-IsService, owns_key-push_scope,
}
use br_rust_common.Registry.State.Loop.{
  fresh_scopes, with_scopes, register_scopes-eq, fresh_step, fresh_scopes-cons_owned,
}
use br_rust_common.Registry.State.Ensure.{
  check_owners-eq-ok, ensure_service-Ensured, distinct-scope_of,
}

-- The services and the events that a consistent declaration leads to.
unfoldable pub outcome_of :
    (registry : ScopeRegistry) (d : ScopeDeclaration)
    → RegisteredService
    → List RegisteredService × List RegistryEvent
outcome_of registry d svc = (
  write_service (ensure_service registry.services d.manifest).0 d.manifest.key
      (with_scopes svc (fresh_scopes svc d.scopes)),
  (ensure_service registry.services d.manifest).1
      ++ map (λ spec. scope_registered_event spec d.manifest.key) (fresh_scopes svc d.scopes),
)

abbrev pub after_of :
    ScopeRegistry → ScopeDeclaration → RegisteredService → ScopeRegistry × CommandResult
after_of registry d svc = finish registry (outcome_of registry d svc)

pub register_declaration-eq :
    (registry : ScopeRegistry) (d : ScopeDeclaration) (svc : RegisteredService)
    → IsRegistry registry
    → IsConsistent d.manifest.key d.scopes
    → find_in (ensure_service registry.services d.manifest).0 d.manifest.key ≡ some svc
    → register_declaration registry d
      ≡ some ((after_of registry d svc).0, ok (after_of registry d svc).1)
unfolding register_declaration outcome_of
register_declaration-eq registry d svc v c f = ground (
  arith,
  check_owners-eq-ok registry d.manifest.key d.scopes v c.owned,
  register_scopes-eq d.manifest.key (ensure_service registry.services d.manifest).0
      (ensure_service registry.services d.manifest).1 d.scopes svc f
      (distinct-scope_of d.scopes c.unique),
)

-- The service with the declared scopes added.
with_scopes-IsService :
    (svc : RegisteredService) (scopes : List ScopeSpec)
    → IsService svc
    → all (λ spec. is_owned_by spec.key (key svc)) scopes ≡ true
    → distinct (map scope_of scopes) ≡ true
    → IsService (with_scopes svc (fresh_scopes svc scopes))
with_scopes-IsService svc [] w o d = unfold fresh_scopes in rw append-nil w
with_scopes-IsService svc (spec ∷ scopes) w o d = elim (Bool-cases (owns_key svc spec.key)) [
  | inl e ↦
      rw (fresh_scopes-cons_owned svc spec scopes e)
        (with_scopes-IsService svc scopes w (ground arith) (ground arith))
  | inr e ↦ rw (← fresh_step svc spec scopes e (ground arith)) (
      with_scopes-IsService (push_scope svc spec) scopes
        (push_scope-IsService svc spec w (ground arith) e) (unfold push_scope in ground arith)
        (ground arith))
]

pub owns_key-with_scopes :
    (svc : RegisteredService) (scopes : List ScopeSpec) (q : ScopeKey)
    → distinct (map scope_of scopes) ≡ true
    → owns_key (with_scopes svc (fresh_scopes svc scopes)) q
      ≡ (owns_key svc q || contains (map scope_of scopes) q)
owns_key-with_scopes svc [] q d = unfold fresh_scopes in rw append-nil (ground arith)
owns_key-with_scopes svc (spec ∷ scopes) q d = elim (Bool-cases (owns_key svc spec.key)) [
  | inl e ↦
      rw (fresh_scopes-cons_owned svc spec scopes e)
        (ground (arith, owns_key-with_scopes svc scopes q, scope_key_eq_iff q spec.key))
  | inr e ↦ rw (← fresh_step svc spec scopes e (ground arith)) (
      ground (
        arith,
        owns_key-with_scopes (push_scope svc spec) scopes q,
        owns_key-push_scope svc spec q,
        scope_key_eq_iff q spec.key,
        scope_key_eq_iff spec.key q,
      ))
]

pub declared-is_owned_by :
    (scopes : List ScopeSpec) (k : ServiceKey) (q : ScopeKey)
    → all (λ spec. is_owned_by spec.key k) scopes ≡ true
    → contains (map scope_of scopes) q ≡ true
    → is_owned_by q k ≡ true
declared-is_owned_by [] k q o h = cc
declared-is_owned_by (spec ∷ scopes) k q o h =
    ground (arith, declared-is_owned_by scopes k q, scope_key_eq_iff q spec.key)

pub services-finish :
    (registry : ScopeRegistry) (done : List RegisteredService × List RegistryEvent)
    → (finish registry done).0.services ≡ done.0
services-finish registry done = ground arith

pub outcome_of-IsServices :
    (registry : ScopeRegistry) (d : ScopeDeclaration) (svc : RegisteredService)
    → IsRegistry registry
    → IsConsistent d.manifest.key d.scopes
    → find_in (ensure_service registry.services d.manifest).0 d.manifest.key ≡ some svc
    → IsServices (outcome_of registry d svc).0
unfolding outcome_of
outcome_of-IsServices registry d svc v c f =
    let w : IsServices (ensure_service registry.services d.manifest).0 =
      (ensure_service-Ensured registry.services d.manifest).valid v in
    let k : key svc ≡ d.manifest.key = key-find_in _ d.manifest.key svc f in
    record {
      each = All-write_service _ d.manifest.key _ w.each (
          with_scopes-IsService svc d.scopes (find_in-IsService _ d.manifest.key svc w.each f)
            (rw k c.owned) (distinct-scope_of d.scopes c.unique));
      unique =
          rw
            (map-write_service (ensure_service registry.services d.manifest).0 d.manifest.key
              (with_scopes svc (fresh_scopes svc d.scopes)) k)
            w.unique;
    }

owner_in-outcome_of :
    (registry : ScopeRegistry) (d : ScopeDeclaration) (svc : RegisteredService) (q : ScopeKey)
    → IsRegistry registry
    → IsConsistent d.manifest.key d.scopes
    → find_in (ensure_service registry.services d.manifest).0 d.manifest.key ≡ some svc
    → owner_in (outcome_of registry d svc).0 q ≡ (
        if contains (map scope_of d.scopes) q
        then some d.manifest.key
        else owner_in registry.services q)
unfolding outcome_of
owner_in-outcome_of registry d svc q v c f =
    let e = ensure_service-Ensured registry.services d.manifest in
    ground (
      arith,
      e.owners q,
      owner_in-write_service (ensure_service registry.services d.manifest).0 d.manifest.key svc
          (with_scopes svc (fresh_scopes svc d.scopes)) q (contains (map scope_of d.scopes) q)
          (All-OwnsPrefix (ensure_service registry.services d.manifest).0 (e.valid v).each) f
          (key-find_in (ensure_service registry.services d.manifest).0 d.manifest.key svc f)
          (owns_key-with_scopes svc d.scopes q (distinct-scope_of d.scopes c.unique))
          (declared-is_owned_by d.scopes d.manifest.key q c.owned),
    )

-- A declaration whose scopes carry its service's prefix, each once, put to a well-formed registry:
-- the call does not panic and does not refuse, the registry stays well-formed, and afterwards
-- exactly the declared keys are owned by the declaring service, all others by whom they were.
pub register_declaration-accepts :
    (registry : ScopeRegistry) (d : ScopeDeclaration)
    → IsRegistry registry
    → IsConsistent d.manifest.key d.scopes
    → (after : ScopeRegistry) × (result : CommandResult) × (register_declaration registry d
        ≡ some (after, ok result))
      × IsRegistry after
      × ((q : ScopeKey)
          → owner_of after q ≡ (
              if contains (map scope_of d.scopes) q
              then some d.manifest.key
              else owner_of registry q))
unfolding owner_of
register_declaration-accepts registry d v c =
    let e = ensure_service-Ensured registry.services d.manifest in
    let o = outcome_of registry d e.svc in
    (
      (finish registry o).0,
      (finish registry o).1,
      register_declaration-eq registry d e.svc v c e.found,
      rw (services-finish registry o) (outcome_of-IsServices registry d e.svc v c e.found),
      λ q. rw (services-finish registry o) (owner_in-outcome_of registry d e.svc q v c e.found),
    )
