-- ===== src/Scope/Declaration/Errors.antt =====
-- What the errors of `ScopeDeclaration::new` say: they name the first scope that offends.
use br_rust_common.Base.{
  Text, true, false, ◌||◌, err, List, [], ◌∷◌, ◌++◌, contains, text_Eq, ◌≡◌, map, arith, refl, ◌⊎◌,
  inl, inr, Bool-cases, ap,
}
use br_rust_common.Scope.Error.{
  ScopeDeclarationError, scope_prefix_mismatch, duplicate_scope_in_declaration,
}
use br_rust_common.Scope.ServiceKey.{ServiceKey}
use br_rust_common.Scope.ScopeKey.{is_owned_by, service_segment}
use br_rust_common.Scope.Spec.{ScopeSpec, ServiceManifest}
use br_rust_common.Scope.Declaration.{check_scopes, new}
use br_rust_common.Scope.Declaration.Laws.{raw_key, IsConsistent, fresh, fresh-cons}

-- Why a scope is refused after the keys in `known`.
abbrev pub Offends : ServiceKey → List Text → ScopeSpec → ScopeDeclarationError → Type 0
Offends service known spec e =
    (is_owned_by spec.key service ≡ false)
      × (e ≡ scope_prefix_mismatch (service_segment spec.key) service.text)
    ⊎ (is_owned_by spec.key service ≡ true)
      × (contains known spec.key.raw ≡ true)
      × (e ≡ duplicate_scope_in_declaration spec.key.raw)

record Refused (service : ServiceKey) (seen : List Text) (scopes : List ScopeSpec)
    (e : ScopeDeclarationError) : Type 0 where
  before : List ScopeSpec
  spec : ScopeSpec
  after : List ScopeSpec
  shape : scopes ≡ before ++ spec ∷ after
  good : IsConsistent service before
  apart : fresh seen before ≡ true
  why : Offends service (map raw_key before ++ seen) spec e

contains-append :
    (a : Text) (xs ys : List Text) → contains (xs ++ ys) a ≡ (contains xs a || contains ys a)
contains-append a [] ys = refl
contains-append a (x ∷ xs) ys = ground (arith, contains-append a xs ys)

Refused-cons :
    (service : ServiceKey) (seen : List Text) (s : ScopeSpec) (scopes : List ScopeSpec)
    (e : ScopeDeclarationError)
    → is_owned_by s.key service ≡ true
    → contains seen s.key.raw ≡ false
    → Refused service (s.key.raw ∷ seen) scopes e
    → Refused service seen (s ∷ scopes) e
Refused-cons service seen s scopes e o c r = record {
  before = s ∷ r.before;
  spec = r.spec;
  after = r.after;
  shape = ap (λ l. s ∷ l) r.shape;
  good = ground (arith, r.good, fresh-cons s.key.raw seen r.before, r.apart);
  apart = ground (arith, fresh-cons s.key.raw seen r.before, r.apart);
  why = ground (
    arith,
    r.why,
    contains-append r.spec.key.raw (map raw_key r.before) (s.key.raw ∷ seen),
    contains-append r.spec.key.raw (map raw_key r.before) seen,
  );
}

check_scopes-Refused :
    (service : ServiceKey) (seen : List Text) (scopes : List ScopeSpec) (e : ScopeDeclarationError)
    → check_scopes service seen scopes ≡ err e
    → Refused service seen scopes e
unfolding check_scopes
check_scopes-Refused service seen [] e h = cc
check_scopes-Refused service seen (s ∷ scopes) e h = elim (Bool-cases (is_owned_by s.key service)) [
  | inr o ↦ record {
    before = [];
    spec = s;
    after = scopes;
    shape = refl;
    good = ground arith;
    apart = refl;
    why = ground arith;
  }
  | inl o ↦ elim (Bool-cases (contains seen s.key.raw)) [
    | inl c ↦ record {
      before = [];
      spec = s;
      after = scopes;
      shape = refl;
      good = ground arith;
      apart = refl;
      why = ground arith;
    }
    | inr c ↦
        Refused-cons service seen s scopes e o c
          (check_scopes-Refused service (s.key.raw ∷ seen) scopes e (ground arith))
  ]
]

-- A refused declaration: the scopes before the one that the error names are consistent, and that
-- one has another service's prefix, or has the right prefix and a key that stands before it.
pub declaration-eq-err :
    (manifest : ServiceManifest) (scopes : List ScopeSpec) (e : ScopeDeclarationError)
    → new manifest scopes ≡ err e
    → (before : List ScopeSpec) × (spec : ScopeSpec) × (after : List ScopeSpec) × (scopes
        ≡ before ++ spec ∷ after)
      × IsConsistent manifest.key before
      × Offends manifest.key (map raw_key before) spec e
unfolding new
declaration-eq-err manifest scopes e h =
    let r = check_scopes-Refused manifest.key [] scopes e (ground arith) in
    (
      r.before,
      r.spec,
      r.after,
      r.shape,
      r.good,
      ground (arith, r.why, contains-append r.spec.key.raw (map raw_key r.before) []),
    )
