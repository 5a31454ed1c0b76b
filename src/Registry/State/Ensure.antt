-- ===== src/Registry/State/Ensure.antt =====
-- The parts of `register_declaration` around its second loop: the check of the owners, which never
-- refuses a scope of a well-formed registry, and the service that is added where it is missing.
use br_rust_common.Base.{
  true, false, ◌||◌, List, [], ◌∷◌, ◌++◌, none, some, contains, distinct, ◌==◌, ◌≡◌, refl, map,
  arith, all, All-append, Option-cases, inl, inr, ok, text_Eq,
}
use br_rust_common.Scope.ServiceKey.{ServiceKey, service_key_Eq, service_key_eq_iff}
use br_rust_common.Scope.ScopeKey.{ScopeKey, scope_key_Eq, scope_key_eq_iff, is_owned_by}
use br_rust_common.Scope.Spec.{ScopeSpec, ServiceManifest}
use br_rust_common.Scope.Declaration.Laws.{raw_key}
use br_rust_common.Registry.Service
use br_rust_common.Registry.Service.{RegisteredService, owns_key, key}
use br_rust_common.Registry.State.{
  ScopeRegistry, find_in, owner_in, owner_of, check_owners, ensure_service,
}
use br_rust_common.Registry.State.Lookup.{
  owner_in-is_owned_by, is_owned_by_unique, owner_in-append, find_in-append,
}
use br_rust_common.Registry.State.Valid.{
  scope_of, IsService, IsServices, IsRegistry, All-OwnsPrefix, new-IsService,
}

-- In a well-formed registry a scope with the declaring service's prefix has no other owner.
pub check_owners-eq-ok :
    (registry : ScopeRegistry) (k : ServiceKey) (scopes : List ScopeSpec)
    → IsRegistry registry
    → all (λ spec. is_owned_by spec.key k) scopes ≡ true
    → check_owners registry k scopes ≡ ok tt
unfolding check_owners owner_of
check_owners-eq-ok registry k [] v o = refl
check_owners-eq-ok registry k (spec ∷ scopes) v o =
    elim (Option-cases (owner_in registry.services spec.key)) [
      | inl e ↦ ground (arith, check_owners-eq-ok registry k scopes v)
      | inr (owner, e) ↦ ground (
        arith,
        check_owners-eq-ok registry k scopes v,
        owner_in-is_owned_by registry.services spec.key owner
            (All-OwnsPrefix registry.services v.each) e,
        is_owned_by_unique spec.key owner k,
        service_key_eq_iff owner k,
      )
    ]

not_found-contains :
    (l : List RegisteredService) (k : ServiceKey)
    → find_in l k ≡ none
    → contains (map key l) k ≡ false
unfolding find_in
not_found-contains [] k h = refl
not_found-contains (svc ∷ l) k h =
    ground (
      arith,
      not_found-contains l k,
      service_key_eq_iff (key svc) k,
      service_key_eq_iff k (key svc),
    )

contains-concat :
    (l : List ServiceKey) (a k : ServiceKey) → contains (l ++ a ∷ []) k ≡ (contains l k || (k == a))
contains-concat [] a k = ground arith
contains-concat (x ∷ l) a k = ground (arith, contains-concat l a k)

distinct-concat :
    (l : List RegisteredService) (s : RegisteredService)
    → distinct (map key l) ≡ true
    → contains (map key l) (key s) ≡ false
    → distinct (map key (l ++ s ∷ [])) ≡ true
distinct-concat [] s d c = refl
distinct-concat (svc ∷ l) s d c = ground (
  arith,
  distinct-concat l s,
  map-concat l,
  contains-concat (map key l) (key s) (key svc),
  service_key_eq_iff (key svc) (key s),
  service_key_eq_iff (key s) (key svc),
)
  where
    map-concat : (r : List RegisteredService) → map key (r ++ s ∷ []) ≡ map key r ++ key s ∷ []
    map-concat [] = refl
    map-concat (t ∷ r) = ground (arith, map-concat r)

pub concat-IsServices :
    (l : List RegisteredService) (s : RegisteredService)
    → IsServices l
    → IsService s
    → find_in l (key s) ≡ none
    → IsServices (l ++ s ∷ [])
concat-IsServices l s v w f = record {
  each = All-append IsService l (s ∷ []) v.each (w, tt);
  unique = distinct-concat l s v.unique (not_found-contains l (key s) f);
}

-- After `ensure_service` the service is there, the registry is well-formed, and no scope key has
-- another owner than before.
pub record Ensured (l : List RegisteredService) (manifest : ServiceManifest) : Type 0 where
  pub svc : RegisteredService
  pub found : find_in (ensure_service l manifest).0 manifest.key ≡ some svc
  pub valid : IsServices l → IsServices (ensure_service l manifest).0
  pub owners : (q : ScopeKey) → owner_in (ensure_service l manifest).0 q ≡ owner_in l q

new_owns_nothing :
    (manifest : ServiceManifest) (q : ScopeKey) → owns_key (Service.new manifest) q ≡ false
unfolding Service.new owns_key
new_owns_nothing manifest q = refl

pub ensure_service-Ensured :
    (l : List RegisteredService) (manifest : ServiceManifest) → Ensured l manifest
unfolding ensure_service
ensure_service-Ensured l manifest = elim (Option-cases (find_in l manifest.key)) [
  | inl e ↦ record {
    svc = Service.new manifest;
    found = ground (arith, new_found e);
    valid = λ v. ground (arith, new_valid e v);
    owners = λ q.
        ground (arith, owner_in-append l (Service.new manifest) q (new_owns_nothing manifest q));
  }
  | inr (svc, e) ↦ record {
    svc = svc;
    found = ground arith;
    valid = λ v. ground (arith, v);
    owners = λ q. ground arith;
  }
]
  where
    new_found :
        find_in l manifest.key ≡ none
        → find_in (l ++ Service.new manifest ∷ []) manifest.key ≡ some (Service.new manifest)
    new_found e = unfold Service.new in find_in-append l (Service.new manifest) e

    new_valid :
        find_in l manifest.key ≡ none → IsServices l → IsServices (l ++ Service.new manifest ∷ [])
    new_valid e v =
        unfold Service.new in
        concat-IsServices l (Service.new manifest) v (new-IsService manifest) e

-- Keys that differ as texts differ.
pub distinct-scope_of :
    (scopes : List ScopeSpec)
    → distinct (map raw_key scopes) ≡ true
    → distinct (map scope_of scopes) ≡ true
distinct-scope_of [] h = refl
distinct-scope_of (spec ∷ scopes) h = ground (arith, distinct-scope_of scopes, known scopes)
  where
    known :
        (rest : List ScopeSpec)
        → contains (map scope_of rest) spec.key ≡ true
        → contains (map raw_key rest) spec.key.raw ≡ true
    known [] e = cc
    known (s ∷ rest) e = ground (arith, known rest, scope_key_eq_iff spec.key s.key)
