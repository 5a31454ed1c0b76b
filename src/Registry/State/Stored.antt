-- ===== src/Registry/State/Stored.antt =====
-- Storing a registry and hydrating it again.
use br_rust_common.Base.{
  ℕ, Bool, true, false, not, ◌&&◌, List, [], ◌∷◌, contains, ◌≡◌, ◌≢◌, ◌↔◌, refl, map, arith, all,
  All, ok, ap, ◌∙◌,
}
use br_rust_common.Scope.ServiceKey.{ServiceKey, service_key_Eq, service_key_eq_iff}
use br_rust_common.Scope.ScopeKey.{ScopeKey, scope_key_Eq, is_owned_by}
use br_rust_common.Scope.Spec.{ScopeSpec, ServiceManifest}
use br_rust_common.Registry.Service.{RegisteredService, key}
use br_rust_common.Registry.State.{ScopeRegistry, hydrate}
use br_rust_common.Registry.State.Lookup.{OwnsPrefix, is_owned_by_unique}
use br_rust_common.Registry.State.Valid.{IsService, IsServices, IsRegistry}
use br_rust_common.Registry.State.Register.{declared-is_owned_by}
use br_rust_common.Registry.State.Hydrate.{
  stored, rev_onto, contains-rev_onto, avoids, Accepted, hydrate_services-of_Accepted,
  hydrate_services-eq-ok,
}

abbrev apart : List ServiceKey → List RegisteredService → Bool
apart services l = all (λ svc. not (contains services (key svc))) l

apart-cons :
    (k : ServiceKey) (services : List ServiceKey) (l : List RegisteredService)
    → apart (k ∷ services) l ≡ (apart services l && not (contains (map key l) k))
apart-cons k services [] = refl
apart-cons k services (svc ∷ l) =
    ground (
      arith,
      apart-cons k services l,
      service_key_eq_iff k (key svc),
      service_key_eq_iff (key svc) k,
    )

Accepted-IsServices :
    (seen : List ScopeKey) (services : List ServiceKey) (l : List RegisteredService)
    → Accepted seen services l
    → IsServices l × (apart services l ≡ true)
Accepted-IsServices seen services [] a = (record { each = tt; unique = refl }, refl)
Accepted-IsServices seen services (svc ∷ l) (c, f, a) =
    let (v, p) = Accepted-IsServices (rev_onto svc.scopes seen) (key svc ∷ services) l a in
    (
      record {
        each = (record { owned = f.0; unique = f.1 }, v.each);
        unique = ground (arith, v.unique, p, apart-cons (key svc) services l);
      },
      ground (arith, c, p, apart-cons (key svc) services l),
    )

-- The scopes of two services are disjoint, since their prefixes differ.
avoids-other :
    (svc : RegisteredService) (k : ServiceKey) (seen : List ScopeKey) (scopes : List ScopeSpec)
    → OwnsPrefix svc
    → all (λ spec. is_owned_by spec.key k) scopes ≡ true
    → key svc ≢ k
    → avoids seen scopes ≡ true
    → avoids (rev_onto svc.scopes seen) scopes ≡ true
avoids-other svc k seen [] w o n a = refl
avoids-other svc k seen (spec ∷ scopes) w o n a = ground (
  arith,
  avoids-other svc k seen scopes w,
  contains-rev_onto svc.scopes seen spec.key,
  declared-is_owned_by svc.scopes (key svc) spec.key w,
  is_owned_by_unique spec.key (key svc) k,
)

abbrev AllAvoid : List ScopeKey → List RegisteredService → Type 0
AllAvoid seen l = All (λ svc. avoids seen svc.scopes ≡ true) l

AllAvoid-rev_onto :
    (svc : RegisteredService) (seen : List ScopeKey) (l : List RegisteredService)
    → OwnsPrefix svc
    → All IsService l
    → contains (map key l) (key svc) ≡ false
    → AllAvoid seen l
    → AllAvoid (rev_onto svc.scopes seen) l
AllAvoid-rev_onto svc seen [] w v c a = tt
AllAvoid-rev_onto svc seen (t ∷ l) w v c a = (
  avoids-other svc (key t) seen t.scopes w v.0.owned
      (λ e. ground (arith, c, service_key_eq_iff (key svc) (key t), e)) a.0,
  AllAvoid-rev_onto svc seen l w v.1 (ground arith) a.1,
)

Accepted-of_IsServices :
    (seen : List ScopeKey) (services : List ServiceKey) (l : List RegisteredService)
    → IsServices l
    → apart services l ≡ true
    → AllAvoid seen l
    → Accepted seen services l
Accepted-of_IsServices seen services [] v p a = tt
Accepted-of_IsServices seen services (svc ∷ l) v p a = (
  ground (arith, p),
  (v.each.0.owned, v.each.0.unique, a.0),
  Accepted-of_IsServices (rev_onto svc.scopes seen) (key svc ∷ services) l
      (record { each = v.each.1; unique = ground (arith, v.unique) })
      (ground (arith, p, v.unique, apart-cons (key svc) services l))
      (AllAvoid-rev_onto svc seen l v.each.0.owned v.each.1 (ground (arith, v.unique)) a.1),
)

apart-nil : (l : List RegisteredService) → apart [] l ≡ true
apart-nil [] = refl
apart-nil (svc ∷ l) = apart-nil l

avoids-nil : (scopes : List ScopeSpec) → avoids [] scopes ≡ true
avoids-nil [] = refl
avoids-nil (spec ∷ scopes) = avoids-nil scopes

AllAvoid-nil : (l : List RegisteredService) → AllAvoid [] l
AllAvoid-nil [] = tt
AllAvoid-nil (svc ∷ l) = (avoids-nil svc.scopes, AllAvoid-nil l)

hydrate_sound :
    (version : ℕ) (input : List (ServiceManifest × List ScopeSpec)) (registry : ScopeRegistry)
    → hydrate version input ≡ ok registry
    → IsRegistry registry × (registry.version ≡ version) × (stored registry.services ≡ input)
unfolding hydrate
hydrate_sound version input registry h =
    let (l, o, i, a) = hydrate_services-eq-ok [] registry.services [] [] input (ground arith) in
    (rw o (Accepted-IsServices [] [] l a).0, ground arith, ap stored o ∙ i)

hydrate_complete :
    (registry : ScopeRegistry)
    → IsRegistry registry
    → hydrate registry.version (stored registry.services) ≡ ok registry
unfolding hydrate
hydrate_complete registry v =
    rw
      (hydrate_services-of_Accepted [] [] [] registry.services (
        Accepted-of_IsServices [] [] registry.services v (apart-nil registry.services)
          (AllAvoid-nil registry.services)))
      refl

-- Hydration gives a registry exactly when that registry is well-formed and the input is its
-- version and its services as they are stored: no duplicate service, no scope with another
-- service's prefix and no duplicate scope gets through, and nothing well-formed is refused.
pub hydrate-eq-ok_iff :
    (version : ℕ) (input : List (ServiceManifest × List ScopeSpec)) (registry : ScopeRegistry)
    → (hydrate version input ≡ ok registry)
      ↔ (IsRegistry registry × (registry.version ≡ version) × (stored registry.services ≡ input))
hydrate-eq-ok_iff version input registry =
    (hydrate_sound version input registry, λ (v, e, i). rw (← e, ← i) (hydrate_complete registry v))
