-- ===== src/Registry/State/Valid.antt =====
-- When a registry is well-formed, and that the writes of the loops keep it so.
use br_rust_common.Base.{
  true, false, not, ◌&&◌, ◌||◌, List, [], ◌∷◌, ◌++◌, some, contains, distinct, ◌==◌, ◌≡◌, refl, map,
  arith, any, All, any-append, all-append,
}
use br_rust_common.Scope.ServiceKey.{ServiceKey, service_key_Eq}
use br_rust_common.Scope.ScopeKey.{ScopeKey, scope_key_Eq, scope_key_eq_iff, is_owned_by}
use br_rust_common.Scope.Spec.{ScopeSpec, ServiceManifest}
use br_rust_common.Registry.Service.{RegisteredService, push_scope, owns_key, key}
use br_rust_common.Registry.Service
use br_rust_common.Registry.State.{ScopeRegistry, find_in, write_service}
use br_rust_common.Registry.State.Lookup.{OwnsPrefix}

abbrev pub scope_of : ScopeSpec → ScopeKey
scope_of spec = spec.key

-- A service owns only keys with its prefix, none twice.
pub record IsService (svc : RegisteredService) : Type 0 where
  pub owned : OwnsPrefix svc
  pub unique : distinct (map scope_of svc.scopes) ≡ true

-- No service stands twice.
pub record IsServices (l : List RegisteredService) : Type 0 where
  pub each : All IsService l
  pub unique : distinct (map key l) ≡ true

abbrev pub IsRegistry : ScopeRegistry → Type 0
IsRegistry registry = IsServices registry.services

pub All-OwnsPrefix : (l : List RegisteredService) → All IsService l → All OwnsPrefix l
All-OwnsPrefix [] h = tt
All-OwnsPrefix (svc ∷ l) h = (h.0.owned, All-OwnsPrefix l h.1)

pub All-write_service :
    (l : List RegisteredService) (k : ServiceKey) (s : RegisteredService)
    → All IsService l
    → IsService s
    → All IsService (write_service l k s)
unfolding write_service
All-write_service [] k s h p = tt
All-write_service (svc ∷ l) k s h p = ground (arith, All-write_service l k s h.1, p, h.0, h.1)

pub find_in-IsService :
    (l : List RegisteredService) (k : ServiceKey) (s : RegisteredService)
    → All IsService l
    → find_in l k ≡ some s
    → IsService s
unfolding find_in
find_in-IsService [] k s h e = cc
find_in-IsService (svc ∷ l) k s h e = ground (arith, find_in-IsService l k s h.1, h.0)

contains-concat :
    (xs : List ScopeKey) (a q : ScopeKey) → contains (xs ++ a ∷ []) q ≡ (contains xs q || (q == a))
contains-concat [] a q = ground arith
contains-concat (x ∷ xs) a q = ground (arith, contains-concat xs a q)

distinct-concat :
    (xs : List ScopeKey) (a : ScopeKey)
    → distinct (xs ++ a ∷ []) ≡ (distinct xs && not (contains xs a))
distinct-concat [] a = refl
distinct-concat (x ∷ xs) a = ground (
  arith,
  distinct-concat xs a,
  contains-concat xs a x,
  scope_key_eq_iff x a,
  scope_key_eq_iff a x,
)

map-concat :
    (xs : List ScopeSpec) (s : ScopeSpec)
    → map scope_of (xs ++ s ∷ []) ≡ map scope_of xs ++ s.key ∷ []
map-concat [] s = refl
map-concat (x ∷ xs) s = ground (arith, map-concat xs s)

owns-contains :
    (xs : List ScopeSpec) (q : ScopeKey)
    → any (λ owned. owned.key == q) xs ≡ contains (map scope_of xs) q
owns-contains [] q = refl
owns-contains (x ∷ xs) q =
    ground (arith, owns-contains xs q, scope_key_eq_iff x.key q, scope_key_eq_iff q x.key)

-- A scope with the prefix, not owned before, may be pushed.
pub push_scope-IsService :
    (svc : RegisteredService) (spec : ScopeSpec)
    → IsService svc
    → is_owned_by spec.key (key svc) ≡ true
    → owns_key svc spec.key ≡ false
    → IsService (push_scope svc spec)
unfolding push_scope owns_key
push_scope-IsService svc spec h o n = record {
  owned =
      rw (all-append (λ (s : ScopeSpec). is_owned_by s.key (key svc)) svc.scopes (spec ∷ []))
        (ground (arith, h.owned));
  unique =
      rw (map-concat, distinct-concat)
        (ground (arith, h.unique, owns-contains svc.scopes spec.key));
}

pub owns_key-push_scope :
    (svc : RegisteredService) (spec : ScopeSpec) (q : ScopeKey)
    → owns_key (push_scope svc spec) q ≡ (owns_key svc q || (spec.key == q))
unfolding push_scope owns_key
owns_key-push_scope svc spec q =
    rw (any-append (λ (s : ScopeSpec). s.key == q) svc.scopes (spec ∷ [])) (ground arith)

pub new-IsService : (manifest : ServiceManifest) → IsService (Service.new manifest)
unfolding Service.new
new-IsService manifest = record { owned = refl; unique = refl }
