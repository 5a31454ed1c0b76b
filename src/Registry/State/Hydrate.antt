-- ===== src/Registry/State/Hydrate.antt =====
-- crates/br-identity-domain/src/registry.rs: the loops of `hydrate`, and the form a registry is stored in.
use br_rust_common.Base.{
  Bool, true, false, not, ◌&&◌, ◌||◌, List, [], ◌∷◌, ◌++◌, contains, distinct, ◌≡◌, refl, map,
  arith, all, ok, err, append_assoc, append-nil, inl, inr, Result-cases,
}
use br_rust_common.Scope.ServiceKey.{ServiceKey, service_key_Eq}
use br_rust_common.Scope.ScopeKey.{ScopeKey, scope_key_Eq, scope_key_eq_iff, is_owned_by}
use br_rust_common.Scope.Spec.{ScopeSpec, ServiceManifest}
use br_rust_common.Registry.Service
use br_rust_common.Registry.Service.{RegisteredService, push_scope, key}
use br_rust_common.Registry.Event.{RegistryHydrationError}
use br_rust_common.Registry.State.{hydrate_scopes, hydrate_services}
use br_rust_common.Registry.State.Valid.{scope_of}
use br_rust_common.Registry.State.Loop.{with_scopes}

-- The rows that a store keeps of a registry, one entry for each service.
abbrev pub stored : List RegisteredService → List (ServiceManifest × List ScopeSpec)
stored services = map (λ svc. (svc.manifest, svc.scopes)) services

abbrev pub rev_onto : List ScopeSpec → List ScopeKey → List ScopeKey
rev_onto [] seen = seen
rev_onto (spec ∷ scopes) seen = rev_onto scopes (spec.key ∷ seen)

pub contains-rev_onto :
    (scopes : List ScopeSpec) (seen : List ScopeKey) (q : ScopeKey)
    → contains (rev_onto scopes seen) q ≡ (contains (map scope_of scopes) q || contains seen q)
contains-rev_onto [] seen q = refl
contains-rev_onto (spec ∷ scopes) seen q =
    ground (arith, contains-rev_onto scopes (spec.key ∷ seen) q)

abbrev pub avoids : List ScopeKey → List ScopeSpec → Bool
avoids seen scopes = all (λ spec. not (contains seen spec.key)) scopes

avoids-cons :
    (k : ScopeKey) (seen : List ScopeKey) (scopes : List ScopeSpec)
    → avoids (k ∷ seen) scopes ≡ (avoids seen scopes && not (contains (map scope_of scopes) k))
avoids-cons k seen [] = refl
avoids-cons k seen (spec ∷ scopes) =
    ground
      (arith, avoids-cons k seen scopes, scope_key_eq_iff k spec.key, scope_key_eq_iff spec.key k)

-- What the inner loop asks of the scopes of one service.
abbrev pub Fits : ServiceManifest → List ScopeKey → List ScopeSpec → Type 0
Fits manifest seen scopes =
    (all (λ spec. is_owned_by spec.key manifest.key) scopes ≡ true)
    × (distinct (map scope_of scopes) ≡ true)
    × (avoids seen scopes ≡ true)

hydrate_scopes-eq-ok :
    (manifest : ServiceManifest) (svc svc' : RegisteredService) (seen seen' : List ScopeKey)
    (scopes : List ScopeSpec)
    → hydrate_scopes manifest svc seen scopes ≡ ok (svc', seen')
    → Fits manifest seen scopes × (svc' ≡ with_scopes svc scopes) × (seen' ≡ rev_onto scopes seen)
unfolding hydrate_scopes push_scope
hydrate_scopes-eq-ok manifest svc svc' seen seen' [] h = ground (arith, append-nil svc.scopes)
hydrate_scopes-eq-ok manifest svc svc' seen seen' (spec ∷ scopes) h = ground (
  arith,
  hydrate_scopes-eq-ok manifest (push_scope svc spec) svc' (spec.key ∷ seen) seen' scopes,
  avoids-cons spec.key seen scopes,
  append_assoc svc.scopes (spec ∷ []) scopes,
)

hydrate_scopes_of_Fits :
    (manifest : ServiceManifest) (svc : RegisteredService) (seen : List ScopeKey)
    (scopes : List ScopeSpec)
    → Fits manifest seen scopes
    → hydrate_scopes manifest svc seen scopes ≡ ok (with_scopes svc scopes, rev_onto scopes seen)
unfolding hydrate_scopes push_scope
hydrate_scopes_of_Fits manifest svc seen [] h = ground (arith, append-nil svc.scopes)
hydrate_scopes_of_Fits manifest svc seen (spec ∷ scopes) h = ground (
  arith,
  hydrate_scopes_of_Fits manifest (push_scope svc spec) (spec.key ∷ seen) scopes,
  avoids-cons spec.key seen scopes,
  append_assoc svc.scopes (spec ∷ []) scopes,
)

-- What the outer loop asks, from the sets that it has.
abbrev pub Accepted : List ScopeKey → List ServiceKey → List RegisteredService → Type 0
Accepted seen services [] = Unit
Accepted seen services (svc ∷ l) =
    (contains services (key svc) ≡ false)
    × Fits svc.manifest seen svc.scopes
    × Accepted (rev_onto svc.scopes seen) (key svc ∷ services) l

pub hydrate_services-of_Accepted :
    (registered : List RegisteredService) (seen : List ScopeKey) (services : List ServiceKey)
    (l : List RegisteredService)
    → Accepted seen services l
    → hydrate_services registered seen services (stored l) ≡ ok (registered ++ l)
unfolding hydrate_services
hydrate_services-of_Accepted registered seen services [] h = ground (arith, append-nil registered)
hydrate_services-of_Accepted registered seen services (svc ∷ l) h = ground (
  arith,
  hydrate_scopes_of_Fits svc.manifest (Service.new svc.manifest) seen svc.scopes h.1,
  new_with_scopes,
  hydrate_services-of_Accepted (registered ++ svc ∷ []) (rev_onto svc.scopes seen)
      (key svc ∷ services) l h.2,
  append_assoc registered (svc ∷ []) l,
)
  where
    new_with_scopes : with_scopes (Service.new svc.manifest) svc.scopes ≡ svc
    new_with_scopes = unfold Service.new in refl

pub hydrate_services-eq-ok :
    (registered out : List RegisteredService) (seen : List ScopeKey) (services : List ServiceKey)
    (input : List (ServiceManifest × List ScopeSpec))
    → hydrate_services registered seen services input ≡ ok out
    → (l : List RegisteredService) × (out ≡ registered ++ l)
      × (stored l ≡ input)
      × Accepted seen services l
unfolding hydrate_services
hydrate_services-eq-ok registered out seen services [] h =
    ([], ground (arith, append-nil registered), refl, tt)
hydrate_services-eq-ok registered out seen services ((manifest, scopes) ∷ input) h =
    elim (Result-cases (hydrate_scopes manifest (Service.new manifest) seen scopes)) [
      | inr (e, p) ↦ absurd (refused e p)
      | inl (r, p) ↦
          let (fits, eq_svc, eq_seen) =
            hydrate_scopes-eq-ok manifest (Service.new manifest) r.0 seen r.1 scopes p in
          let (l, o, i, a) =
            hydrate_services-eq-ok (registered ++ r.0 ∷ []) out r.1 (manifest.key ∷ services) input
              (rest r p) in
          (
            record { manifest = manifest; scopes = scopes } ∷ l,
            ground (arith, o, eq_svc, new_with_scopes, append_assoc registered (r.0 ∷ []) l),
            ground (arith, i),
            (unseen r p, fits, rw (← eq_seen) a),
          )
    ]
  where
    new_with_scopes :
        with_scopes (Service.new manifest) scopes ≡ record { manifest = manifest; scopes = scopes }
    new_with_scopes = unfold Service.new in refl

    refused :
        (e : RegistryHydrationError)
        → hydrate_scopes manifest (Service.new manifest) seen scopes ≡ err e
        → ⊥
    refused e p = ground (arith, h)

    unseen :
        (r : RegisteredService × List ScopeKey)
        → hydrate_scopes manifest (Service.new manifest) seen scopes ≡ ok r
        → contains services manifest.key ≡ false
    unseen r p = ground (arith, h)

    rest :
        (r : RegisteredService × List ScopeKey)
        → hydrate_scopes manifest (Service.new manifest) seen scopes ≡ ok r
        → hydrate_services (registered ++ r.0 ∷ []) r.1 (manifest.key ∷ services) input ≡ ok out
    rest r p = ground (arith, h)
