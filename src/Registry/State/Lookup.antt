-- ===== src/Registry/State/Lookup.antt =====
-- Finding a service and writing it back, and who owns a scope key after such a write.
use br_rust_common.Base.{
  Bool, true, false, ◌||◌, List, [], ◌∷◌, ◌++◌, none, some, any, ◌==◌, if◌then◌else◌, ◌≡◌, refl,
  map, arith, all, All, text_Eq,
}
use br_rust_common.Scope.ServiceKey.{ServiceKey, service_key_Eq, service_key_eq_iff}
use br_rust_common.Scope.ScopeKey.{ScopeKey, scope_key_Eq, is_owned_by, service_segment}
use br_rust_common.Scope.Spec.{ScopeSpec}
use br_rust_common.Registry.Service.{RegisteredService, owns_key, key}
use br_rust_common.Registry.State.{find_in, owner_in, write_service}

-- Each scope of a service has its prefix.
abbrev pub OwnsPrefix : RegisteredService → Type 0
OwnsPrefix svc = all (λ spec. is_owned_by spec.key (key svc)) svc.scopes ≡ true

pub key-find_in :
    (l : List RegisteredService) (k : ServiceKey) (s : RegisteredService)
    → find_in l k ≡ some s
    → key s ≡ k
unfolding find_in
key-find_in [] k s h = cc
key-find_in (svc ∷ l) k s h = ground (arith, key-find_in l k s, service_key_eq_iff (key svc) k)

pub find_in-write_service :
    (l : List RegisteredService) (k : ServiceKey) (s s' : RegisteredService)
    → find_in l k ≡ some s
    → key s' ≡ k
    → find_in (write_service l k s') k ≡ some s'
unfolding find_in write_service
find_in-write_service [] k s s' h e = cc
find_in-write_service (svc ∷ l) k s s' h e =
    ground (arith, find_in-write_service l k s s', service_key_eq_iff (key s') k)

pub write_service-write_service :
    (l : List RegisteredService) (k : ServiceKey) (s s' : RegisteredService)
    → key s ≡ k
    → write_service (write_service l k s) k s' ≡ write_service l k s'
unfolding write_service
write_service-write_service [] k s s' e = refl
write_service-write_service (svc ∷ l) k s s' e =
    ground (arith, write_service-write_service l k s s', service_key_eq_iff (key s) k)

pub write_service_self :
    (l : List RegisteredService) (k : ServiceKey) (s : RegisteredService)
    → find_in l k ≡ some s
    → write_service l k s ≡ l
unfolding find_in write_service
write_service_self [] k s h = cc
write_service_self (svc ∷ l) k s h = ground (arith, write_service_self l k s)

pub map-write_service :
    (l : List RegisteredService) (k : ServiceKey) (s : RegisteredService)
    → key s ≡ k
    → map key (write_service l k s) ≡ map key l
unfolding write_service
map-write_service [] k s e = refl
map-write_service (svc ∷ l) k s e =
    ground (arith, map-write_service l k s, service_key_eq_iff (key svc) k)

-- A scope key has one prefix, so one owner.
pub is_owned_by_unique :
    (q : ScopeKey) (a b : ServiceKey) → is_owned_by q a ≡ true → is_owned_by q b ≡ true → a ≡ b
unfolding is_owned_by
is_owned_by_unique q a b h k =
    ground (
      arith,
      text_Eq.beq_iff (service_segment q) a.text,
      text_Eq.beq_iff (service_segment q) b.text,
    )

owned-any :
    (scopes : List ScopeSpec) (k : ServiceKey) (q : ScopeKey)
    → all (λ spec. is_owned_by spec.key k) scopes ≡ true
    → any (λ owned. owned.key == q) scopes ≡ true
    → is_owned_by q k ≡ true
owned-any [] k q h m = cc
owned-any (spec ∷ scopes) k q h m =
    ground (arith, owned-any scopes k q, scope_key_Eq.beq_iff spec.key q)

-- A key that a service owns has its prefix.
pub owns_key-is_owned_by :
    (svc : RegisteredService) (q : ScopeKey)
    → OwnsPrefix svc
    → owns_key svc q ≡ true
    → is_owned_by q (key svc) ≡ true
unfolding owns_key
owns_key-is_owned_by svc q h m = owned-any svc.scopes (key svc) q h m

-- The owner that is found has the key's prefix.
pub owner_in-is_owned_by :
    (l : List RegisteredService) (q : ScopeKey) (o : ServiceKey)
    → All OwnsPrefix l
    → owner_in l q ≡ some o
    → is_owned_by q o ≡ true
unfolding owner_in
owner_in-is_owned_by [] q o h e = cc
owner_in-is_owned_by (svc ∷ l) q o h e =
    ground (arith, owner_in-is_owned_by l q o h.1, owns_key-is_owned_by svc q h.0)

-- The owners after a service was given the keys that `b` tells.
pub owner_in-write_service :
    (l : List RegisteredService) (k : ServiceKey) (s s' : RegisteredService) (q : ScopeKey)
    (b : Bool)
    → All OwnsPrefix l
    → find_in l k ≡ some s
    → key s' ≡ k
    → owns_key s' q ≡ (owns_key s q || b)
    → (b ≡ true → is_owned_by q k ≡ true)
    → owner_in (write_service l k s') q ≡ (if b then some k else owner_in l q)
unfolding owner_in find_in write_service
owner_in-write_service [] k s s' q b o h e w p = cc
owner_in-write_service (svc ∷ l) k s s' q b o h e w p = ground (
  arith,
  owner_in-write_service l k s s' q b o.1,
  service_key_eq_iff (key svc) k,
  owns_key-is_owned_by svc q o.0,
  is_owned_by_unique q (key svc) k,
)

-- A new service that owns nothing changes no owner.
pub owner_in-append :
    (l : List RegisteredService) (s : RegisteredService) (q : ScopeKey)
    → owns_key s q ≡ false
    → owner_in (l ++ s ∷ []) q ≡ owner_in l q
unfolding owner_in
owner_in-append [] s q h = ground arith
owner_in-append (svc ∷ l) s q h = ground (arith, owner_in-append l s q h)

pub find_in-append :
    (l : List RegisteredService) (s : RegisteredService)
    → find_in l (key s) ≡ none
    → find_in (l ++ s ∷ []) (key s) ≡ some s
unfolding find_in
find_in-append [] s h = ground (arith, service_key_eq_iff (key s) (key s))
find_in-append (svc ∷ l) s h = ground (arith, find_in-append l s)
