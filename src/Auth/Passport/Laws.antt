-- ===== src/Auth/Passport/Laws.antt =====
-- crates/br-core-auth/src/passport.rs: what the accessors say of each other.
use br_rust_common.Base.{
  ℕ, true, false, Text, List, [], ◌∷◌, Option, none, some, ok, inl, inr, any, contains, text_Eq,
  ◌==◌, ◌≡◌, ◌⊎◌, refl, sym, arith, Result-cases, err,
}
use br_rust_common.Auth.Actor
use br_rust_common.Auth.Passport.{
  Passport, human_passport, service_passport, valid_scopes, raw_scopes, scopes, has_scope, to_actor,
  actor_id, user_id, service_account_id, with_impersonator, is_impersonating, impersonator_id,
  auth_method, is_pat_passport, claims_of, claim, is_active, is_super_admin,
}
use br_rust_common.Scope.Error.{KeyValidationError}
use br_rust_common.Scope.ScopeKey
use br_rust_common.Scope.ScopeKey.{ScopeKey, scope_key_Eq}
use br_rust_common.Scope.ScopeKey.Laws.{IsKey, new_complete, scope_key-eq-ok_iff}

same_scope :
    (k : ScopeKey)
    → IsKey k
    → (raw : Text) (key : ScopeKey) → ScopeKey.new raw ≡ ok key
    → (k == key) ≡ (raw == k.raw)
same_scope k w raw key e = ground (
  arith,
  ((scope_key-eq-ok_iff raw key).0 e).1,
  new_complete k w,
  e,
  scope_key_Eq.beq_iff k key,
  text_Eq.beq_iff raw k.raw,
)

other_scope :
    (k : ScopeKey)
    → IsKey k
    → (raw : Text) (x : KeyValidationError) → ScopeKey.new raw ≡ err x
    → (raw == k.raw) ≡ false
other_scope k w raw x e = ground (arith, new_complete k w, e, text_Eq.beq_iff raw k.raw)

valid_scopes-contains :
    (k : ScopeKey)
    → IsKey k
    → (raws : List Text) → contains (valid_scopes raws) k ≡ any (λ raw. raw == k.raw) raws
unfolding valid_scopes
valid_scopes-contains k w [] = refl
valid_scopes-contains k w (raw ∷ raws) =
    let rest = valid_scopes-contains k w raws in
    elim (Result-cases (ScopeKey.new raw)) [
      | inl (key, e) ↦ ground (arith, rest, e, same_scope k w raw key e)
      | inr (x, e) ↦ ground (arith, rest, e, other_scope k w raw x e)
    ]

-- A passport has a scope, a valid key, exactly when the list of its scopes holds that key, whatever
-- other texts the claim carries.
pub has_scope-scopes {ℓ} :
    {J : Type ℓ} (as_strings : J → Option (List Text)) (p : Passport J) (k : ScopeKey)
    → IsKey k
    → has_scope as_strings p k ≡ contains (scopes as_strings p) k
unfolding has_scope scopes
has_scope-scopes as_strings p k w = sym (valid_scopes-contains k w (raw_scopes as_strings p))

-- The ids, the actor and the flags of a passport agree: exactly one of the two ids is given, it is
-- the id of the actor, and only a human can be a super admin, inactive, impersonated or signed in
-- with a token.
pub to_actor-id {ℓ} :
    {J : Type ℓ} (p : Passport J)
    → (Actor.id (to_actor p) ≡ actor_id p)
      × ((Actor.is_human (to_actor p) ≡ true)
            × (user_id p ≡ some (actor_id p))
            × (service_account_id p ≡ none)
          ⊎ (Actor.is_service (to_actor p) ≡ true)
            × (service_account_id p ≡ some (actor_id p))
            × (user_id p ≡ none)
            × (is_super_admin p ≡ false)
            × (is_active p ≡ true)
            × (is_impersonating p ≡ false)
            × (is_pat_passport p ≡ false))
unfolding Actor.id Actor.is_human Actor.is_service to_actor actor_id user_id service_account_id
    is_super_admin is_active is_impersonating impersonator_id is_pat_passport auth_method
to_actor-id (human_passport user super active method impersonator claims) =
    (refl, inl (refl, refl, refl))
to_actor-id (service_passport account claims) =
    (refl, inr (refl, refl, refl, refl, refl, refl, refl))

-- Impersonation changes no identity, no flag and no scope; a passport impersonates
-- afterwards exactly when it is a human's.
pub with_impersonator-keeps {ℓ} :
    {J : Type ℓ} (as_strings : J → Option (List Text)) (p : Passport J) (id : ℕ)
    → (to_actor (with_impersonator p id) ≡ to_actor p)
      × (is_super_admin (with_impersonator p id) ≡ is_super_admin p)
      × (is_active (with_impersonator p id) ≡ is_active p)
      × (scopes as_strings (with_impersonator p id) ≡ scopes as_strings p)
      × (is_impersonating (with_impersonator p id) ≡ Actor.is_human (to_actor p))
unfolding with_impersonator to_actor is_super_admin is_active scopes raw_scopes claim claims_of
    is_impersonating impersonator_id Actor.is_human
with_impersonator-keeps as_strings (human_passport user super active method by claims) id =
    (refl, refl, refl, refl, refl)
with_impersonator-keeps as_strings (service_passport account claims) id =
    (refl, refl, refl, refl, refl)
