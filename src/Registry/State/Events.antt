-- ===== src/Registry/State/Events.antt =====
-- The events and the version of a `register_declaration`, and declaring again.
use br_rust_common.Base.{
  ◌+◌, ◌%◌, ◌^◌, true, false, List, [], ◌∷◌, ◌++◌, some, ◌≡◌, ◌⊎◌, inl, inr, refl, arith, all, ok,
  err, is_empty, Option-cases,
}
use br_rust_common.Scope.Error.{ScopeDeclarationError}
use br_rust_common.Scope.ServiceKey.{ServiceKey, service_key_Eq}
use br_rust_common.Scope.ScopeKey.{scope_key_Eq}
use br_rust_common.Scope.Spec.{ScopeSpec, ServiceManifest}
use br_rust_common.Scope.Declaration.{ScopeDeclaration}
use br_rust_common.Registry.Service
use br_rust_common.Registry.Service.{RegisteredService, push_scope, owns_key, key}
use br_rust_common.Registry.Event.{RegistryEvent, CommandResult, is_noop, from_events}
use br_rust_common.Registry.State.{
  ScopeRegistry, find_in, write_service, ensure_service, register_scopes, finish,
  register_declaration, scope_registered_event,
}
use br_rust_common.Registry.State.Loop.{fresh_scopes}

concat-ne-nil :
    (events : List RegistryEvent) (e : RegistryEvent) → is_empty (events ++ e ∷ []) ≡ false
concat-ne-nil [] e = refl
concat-ne-nil (x ∷ events) e = refl

-- The loop that ends with no event has changed nothing.
register_scopes-empty :
    (k : ServiceKey) (l : List RegisteredService) (events : List RegistryEvent)
    (scopes : List ScopeSpec) (l' : List RegisteredService) (events' : List RegistryEvent)
    → register_scopes k l events scopes ≡ some (l', events')
    → is_empty events' ≡ true
    → (is_empty events ≡ true) × (l' ≡ l)
unfolding register_scopes
register_scopes-empty k l events [] l' events' h e = ground arith
register_scopes-empty k l events (spec ∷ scopes) l' events' h e =
    elim (Option-cases (find_in l k)) [
      | inl f ↦ ground arith
      | inr (svc, f) ↦ ground (
        arith,
        register_scopes-empty k l events scopes l' events',
        register_scopes-empty k (write_service l k (push_scope svc spec))
            (events ++ scope_registered_event spec k ∷ []) scopes l' events',
        concat-ne-nil events (scope_registered_event spec k),
      )
    ]

ensure_service-empty :
    (l : List RegisteredService) (manifest : ServiceManifest)
    → is_empty (ensure_service l manifest).1 ≡ true
    → (ensure_service l manifest).0 ≡ l
unfolding ensure_service
ensure_service-empty l manifest h = ground arith

finish_cases :
    (registry : ScopeRegistry) (l : List RegisteredService) (events : List RegistryEvent)
    → (is_empty events ≡ true → l ≡ registry.services)
    → ((is_noop (finish registry (l, events)).1 ≡ true)
        × ((finish registry (l, events)).0 ≡ registry))
      ⊎ ((is_noop (finish registry (l, events)).1 ≡ false)
          × ((finish registry (l, events)).0.version ≡ (registry.version + 1) % 2 ^ 64))
unfolding is_noop from_events
finish_cases registry l [] h = inl (refl, ground (arith, h refl))
finish_cases registry l (e ∷ events) h = inr (refl, refl)

-- An accepted declaration, on any registry: either its result is a no-op and the registry is the
-- same, version included, or there are events and the version is one higher, modulo 2 ^ 64.
pub register_declaration-version :
    (registry after : ScopeRegistry) (d : ScopeDeclaration) (result : CommandResult)
    → register_declaration registry d ≡ some (after, ok result)
    → ((is_noop result ≡ true) × (after ≡ registry))
      ⊎ ((is_noop result ≡ false) × (after.version ≡ (registry.version + 1) % 2 ^ 64))
unfolding register_declaration
register_declaration-version registry after d result h =
    let l = (ensure_service registry.services d.manifest).0 in
    let events = (ensure_service registry.services d.manifest).1 in
    elim (Option-cases (register_scopes d.manifest.key l events d.scopes)) [
      | inl e ↦ ground arith
      | inr (done, e) ↦
          let c = finish_cases registry done.0 done.1 (λ n. unchanged done e n) in ground (arith, c)
    ]
  where
    unchanged :
        (done : List RegisteredService × List RegistryEvent)
        → register_scopes d.manifest.key
            (ensure_service registry.services d.manifest).0
            (ensure_service registry.services d.manifest).1
            d.scopes
          ≡ some done
        → is_empty done.1 ≡ true
        → done.0 ≡ registry.services
    unchanged done e n = ground (
      arith,
      register_scopes-empty d.manifest.key (ensure_service registry.services d.manifest).0
          (ensure_service registry.services d.manifest).1 d.scopes done.0 done.1 e n,
      ensure_service-empty registry.services d.manifest,
    )

-- A refused declaration, on any registry, leaves the registry as it was.
pub register_declaration-refused :
    (registry after : ScopeRegistry) (d : ScopeDeclaration) (reason : ScopeDeclarationError)
    → register_declaration registry d ≡ some (after, err reason)
    → after ≡ registry
unfolding register_declaration
register_declaration-refused registry after d reason h = ground arith

pub fresh_scopes-eq-nil :
    (svc : RegisteredService) (scopes : List ScopeSpec)
    → all (λ spec. owns_key svc spec.key) scopes ≡ true
    → fresh_scopes svc scopes ≡ []
unfolding fresh_scopes
fresh_scopes-eq-nil svc [] h = refl
fresh_scopes-eq-nil svc (spec ∷ scopes) h = ground (arith, fresh_scopes-eq-nil svc scopes)

pub fresh_scopes-new :
    (manifest : ServiceManifest) (scopes : List ScopeSpec)
    → fresh_scopes (Service.new manifest) scopes ≡ scopes
unfolding fresh_scopes Service.new owns_key
fresh_scopes-new manifest [] = refl
fresh_scopes-new manifest (spec ∷ scopes) = ground (arith, fresh_scopes-new manifest scopes)
