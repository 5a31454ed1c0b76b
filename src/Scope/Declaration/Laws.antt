-- ===== src/Scope/Declaration/Laws.antt =====
-- Which declarations `ScopeDeclaration::new` accepts, and what its errors say.
use br_rust_common.Base.{
  Text, Bool, true, not, ◌&&◌, ok, List, [], ◌∷◌, contains, text_Eq, ◌≡◌, ◌↔◌, all, distinct, map,
  arith, refl,
}
use br_rust_common.Scope.ServiceKey.{ServiceKey}
use br_rust_common.Scope.ScopeKey.{is_owned_by}
use br_rust_common.Scope.Spec.{ScopeSpec, ServiceManifest}
use br_rust_common.Scope.Declaration.{ScopeDeclaration, check_scopes, new}

abbrev pub raw_key : ScopeSpec → Text
raw_key spec = spec.key.raw

-- Each scope has the prefix of its service, and no key stands twice.
pub record IsConsistent (service : ServiceKey) (scopes : List ScopeSpec) : Type 0 where
  pub owned : all (λ spec. is_owned_by spec.key service) scopes ≡ true
  pub unique : distinct (map raw_key scopes) ≡ true

abbrev pub fresh : List Text → List ScopeSpec → Bool
fresh seen scopes = all (λ spec. not (contains seen (raw_key spec))) scopes

-- A text added to the set: the rest avoids it too.
pub fresh-cons :
    (r : Text) (seen : List Text) (scopes : List ScopeSpec)
    → fresh (r ∷ seen) scopes ≡ (fresh seen scopes && not (contains (map raw_key scopes) r))
fresh-cons r seen [] = refl
fresh-cons r seen (spec ∷ scopes) = ground (
  arith,
  fresh-cons r seen scopes,
  text_Eq.beq_iff r spec.key.raw,
  text_Eq.beq_iff spec.key.raw r,
)

check_scopes-eq-ok_iff :
    (service : ServiceKey) (seen : List Text) (scopes : List ScopeSpec)
    → (check_scopes service seen scopes ≡ ok tt)
      ↔ (IsConsistent service scopes × (fresh seen scopes ≡ true))
unfolding check_scopes
check_scopes-eq-ok_iff service seen [] = ground arith
check_scopes-eq-ok_iff service seen (spec ∷ scopes) = ground (
  arith,
  check_scopes-eq-ok_iff service (spec.key.raw ∷ seen) scopes,
  fresh-cons spec.key.raw seen scopes,
)

pub all_fresh : (scopes : List ScopeSpec) → fresh [] scopes ≡ true
all_fresh [] = refl
all_fresh (spec ∷ scopes) = all_fresh scopes

-- A declaration is accepted exactly when each scope carries the prefix of the declaring service
-- and no key is declared twice; then it holds the manifest and the scopes as they were given.
pub declaration-eq-ok_iff :
    (manifest : ServiceManifest) (scopes : List ScopeSpec) (d : ScopeDeclaration)
    → (new manifest scopes ≡ ok d)
      ↔ (IsConsistent manifest.key scopes × (d.manifest ≡ manifest) × (d.scopes ≡ scopes))
unfolding new
declaration-eq-ok_iff manifest scopes d =
    ground (arith, check_scopes-eq-ok_iff manifest.key [] scopes, all_fresh scopes)
