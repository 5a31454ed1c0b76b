-- ===== src/Registry/State/Loop.antt =====
-- The second loop of `register_declaration`: it adds to the declaring service exactly the scopes
-- that the service did not own, in the order of the declaration.
use br_rust_common.Base.{
  true, false, List, [], ◌∷◌, ◌++◌, some, contains, distinct, ◌≡◌, refl, map, arith, if◌then◌else◌,
  append_assoc, append-nil, Bool-cases, inl, inr,
}
use br_rust_common.Scope.ServiceKey.{ServiceKey, service_key_Eq}
use br_rust_common.Scope.ScopeKey.{scope_key_Eq}
use br_rust_common.Scope.Spec.{ScopeSpec}
use br_rust_common.Registry.Service.{RegisteredService, push_scope, owns_key}
use br_rust_common.Registry.Event.{RegistryEvent}
use br_rust_common.Registry.State.{find_in, write_service, register_scopes, scope_registered_event}
use br_rust_common.Registry.State.Lookup.{
  key-find_in, find_in-write_service, write_service-write_service, write_service_self,
}
use br_rust_common.Registry.State.Valid.{scope_of, owns_key-push_scope}

-- The declared scopes that a service does not own.
unfoldable pub fresh_scopes : RegisteredService → List ScopeSpec → List ScopeSpec
fresh_scopes svc [] = []
fresh_scopes svc (spec ∷ scopes) =
    let rest = fresh_scopes svc scopes in if owns_key svc spec.key then rest else spec ∷ rest

abbrev pub with_scopes : RegisteredService → List ScopeSpec → RegisteredService
with_scopes svc extra = record svc { scopes = svc.scopes ++ extra }

fresh_scopes-push_scope :
    (svc : RegisteredService) (spec : ScopeSpec) (scopes : List ScopeSpec)
    → contains (map scope_of scopes) spec.key ≡ false
    → fresh_scopes (push_scope svc spec) scopes ≡ fresh_scopes svc scopes
unfolding fresh_scopes
fresh_scopes-push_scope svc spec [] h = refl
fresh_scopes-push_scope svc spec (s ∷ scopes) h =
    ground (arith, fresh_scopes-push_scope svc spec scopes, owns_key-push_scope svc spec s.key)

with_scopes-push_scope :
    (svc : RegisteredService) (spec : ScopeSpec) (extra : List ScopeSpec)
    → with_scopes (push_scope svc spec) extra ≡ with_scopes svc (spec ∷ extra)
unfolding push_scope
with_scopes-push_scope svc spec extra = rw append_assoc

-- One step of the loop at a scope that is new: the rest of the loop sees the pushed service.
pub fresh_step :
    (svc : RegisteredService) (spec : ScopeSpec) (scopes : List ScopeSpec)
    → owns_key svc spec.key ≡ false
    → contains (map scope_of scopes) spec.key ≡ false
    → with_scopes (push_scope svc spec) (fresh_scopes (push_scope svc spec) scopes)
      ≡ with_scopes svc (fresh_scopes svc (spec ∷ scopes))
unfolding fresh_scopes
fresh_step svc spec scopes n h =
    rw (fresh_scopes-push_scope svc spec scopes h, n)
      (with_scopes-push_scope svc spec (fresh_scopes svc scopes))

pub fresh_scopes-cons :
    (svc : RegisteredService) (spec : ScopeSpec) (scopes : List ScopeSpec)
    → owns_key svc spec.key ≡ false
    → fresh_scopes svc (spec ∷ scopes) ≡ spec ∷ fresh_scopes svc scopes
unfolding fresh_scopes
fresh_scopes-cons svc spec scopes n = rw n

pub fresh_scopes-cons_owned :
    (svc : RegisteredService) (spec : ScopeSpec) (scopes : List ScopeSpec)
    → owns_key svc spec.key ≡ true
    → fresh_scopes svc (spec ∷ scopes) ≡ fresh_scopes svc scopes
unfolding fresh_scopes
fresh_scopes-cons_owned svc spec scopes n = rw n

-- What the loop gives from a list where the service is `svc`.
abbrev pub Adds :
    ServiceKey
    → List RegisteredService
    → List RegistryEvent
    → List ScopeSpec
    → RegisteredService
    → Type 0
Adds k l events scopes svc =
    register_scopes k l events scopes
    ≡ some (
      write_service l k (with_scopes svc (fresh_scopes svc scopes)),
      events ++ map (λ spec. scope_registered_event spec k) (fresh_scopes svc scopes),
    )

Adds-nil :
    (k : ServiceKey) (l : List RegisteredService) (events : List RegistryEvent)
    (svc : RegisteredService)
    → find_in l k ≡ some svc
    → Adds k l events [] svc
unfolding register_scopes fresh_scopes
Adds-nil k l events svc f =
    ground (arith, append-nil svc.scopes, append-nil events, write_service_self l k svc f)

Adds-owned :
    (k : ServiceKey) (l : List RegisteredService) (events : List RegistryEvent) (spec : ScopeSpec)
    (scopes : List ScopeSpec) (svc : RegisteredService)
    → find_in l k ≡ some svc
    → owns_key svc spec.key ≡ true
    → Adds k l events scopes svc
    → Adds k l events (spec ∷ scopes) svc
unfolding register_scopes fresh_scopes
Adds-owned k l events spec scopes svc f o h = ground (arith, h)

Adds-fresh :
    (k : ServiceKey) (l : List RegisteredService) (events : List RegistryEvent) (spec : ScopeSpec)
    (scopes : List ScopeSpec) (svc : RegisteredService)
    → find_in l k ≡ some svc
    → owns_key svc spec.key ≡ false
    → contains (map scope_of scopes) spec.key ≡ false
    → Adds k
        (write_service l k (push_scope svc spec))
        (events ++ scope_registered_event spec k ∷ [])
        scopes
        (push_scope svc spec)
    → Adds k l events (spec ∷ scopes) svc
unfolding register_scopes
Adds-fresh k l events spec scopes svc f n c h = ground (
  arith,
  h,
  fresh_step svc spec scopes n c,
  fresh_scopes-push_scope svc spec scopes c,
  write_service-write_service l k (push_scope svc spec)
      (with_scopes svc (fresh_scopes svc (spec ∷ scopes)))
      (unfold push_scope in key-find_in l k svc f),
  append_assoc events (scope_registered_event spec k ∷ [])
      (map (λ (s : ScopeSpec). scope_registered_event s k) (fresh_scopes svc scopes)),
  fresh_scopes-cons svc spec scopes n,
)

pub register_scopes-eq :
    (k : ServiceKey) (l : List RegisteredService) (events : List RegistryEvent)
    (scopes : List ScopeSpec) (svc : RegisteredService)
    → find_in l k ≡ some svc
    → distinct (map scope_of scopes) ≡ true
    → Adds k l events scopes svc
register_scopes-eq k l events [] svc f d = Adds-nil k l events svc f
register_scopes-eq k l events (spec ∷ scopes) svc f d = elim (Bool-cases (owns_key svc spec.key)) [
  | inl o ↦
      Adds-owned k l events spec scopes svc f o
        (register_scopes-eq k l events scopes svc f (ground arith))
  | inr n ↦ Adds-fresh k l events spec scopes svc f n (ground arith) (
      register_scopes-eq k (write_service l k (push_scope svc spec))
        (events ++ scope_registered_event spec k ∷ []) scopes (push_scope svc spec)
        (find_in-write_service l k svc (push_scope svc spec) f
          (unfold push_scope in key-find_in l k svc f))
        (ground arith))
]
