-- ===== src/Scope/Raw/Laws.antt =====
-- crates/br-core-scope/src/raw.rs: validation and serialisation of declarations.
use br_rust_common.Base.{ok, List, [], ◌∷◌, map, ◌≡◌, ◌↔◌, All, arith, refl}
use br_rust_common.Scope.ServiceKey
use br_rust_common.Scope.ServiceKey.{ServiceKey, service_key_max_len}
use br_rust_common.Scope.ServiceKey.Laws.{IsSegment}
use br_rust_common.Scope.ScopeKey
use br_rust_common.Scope.ScopeKey.Laws.{IsKey}
use br_rust_common.Scope.Spec.{ScopeSpec, ServiceManifest}
use br_rust_common.Scope.Declaration
use br_rust_common.Scope.Declaration.{ScopeDeclaration}
use br_rust_common.Scope.Declaration.Laws.{IsConsistent}
use br_rust_common.Scope.Raw.{
  RawScopeSpec, RawScopeDeclaration, validate_spec, validate_specs, validate, raw_of_spec, from,
}

-- What holds of each declaration that the program can build.
pub record IsDeclaration (d : ScopeDeclaration) : Type 0 where
  pub service_ok : IsSegment service_key_max_len d.manifest.key.text
  pub keys_ok : All (λ spec. IsKey spec.key) d.scopes
  pub consistent : IsConsistent d.manifest.key d.scopes

validate_spec-eq-ok :
    (raw : RawScopeSpec) (spec : ScopeSpec)
    → validate_spec raw ≡ ok spec
    → IsKey spec.key × (raw_of_spec spec ≡ raw)
unfolding validate_spec raw_of_spec
validate_spec-eq-ok raw spec h =
    let k = (ScopeKey.Laws.scope_key-eq-ok_iff raw.key spec.key).0 (ground arith) in
    (k.0, ground (arith, k.1))

validate_spec-raw_of_spec :
    (spec : ScopeSpec) → IsKey spec.key → validate_spec (raw_of_spec spec) ≡ ok spec
unfolding validate_spec raw_of_spec
validate_spec-raw_of_spec spec w = rw (ScopeKey.Laws.new_complete spec.key w) refl

validate_specs-eq-ok :
    (raws : List RawScopeSpec) (specs : List ScopeSpec)
    → validate_specs raws ≡ ok specs
    → All (λ spec. IsKey spec.key) specs × (map raw_of_spec specs ≡ raws)
unfolding validate_specs
validate_specs-eq-ok [] [] h = (tt, refl)
validate_specs-eq-ok [] (spec ∷ specs) h = cc
validate_specs-eq-ok (raw ∷ raws) [] h = ground arith
validate_specs-eq-ok (raw ∷ raws) (spec ∷ specs) h =
    let r = validate_spec-eq-ok raw spec (ground arith) in
    let rs = validate_specs-eq-ok raws specs (ground arith) in
    ((r.0, rs.0), ground (arith, r.1, rs.1))

validate_specs-map :
    (specs : List ScopeSpec)
    → All (λ spec. IsKey spec.key) specs
    → validate_specs (map raw_of_spec specs) ≡ ok specs
unfolding validate_specs
validate_specs-map [] h = refl
validate_specs-map (spec ∷ specs) h =
    rw (validate_spec-raw_of_spec spec h.0, validate_specs-map specs h.1) refl

abbrev manifest_of : ServiceKey → RawScopeDeclaration → ServiceManifest
manifest_of service raw = record {
  key = service;
  label_key = raw.manifest.label_key;
  description_key = raw.manifest.description_key;
}

-- The three stages of a validation that succeeds.
validate_stages :
    (raw : RawScopeDeclaration) (d : ScopeDeclaration)
    → validate raw ≡ ok d
    → (service : ServiceKey) × (specs : List ScopeSpec) × (ServiceKey.new raw.manifest.key
        ≡ ok service)
      × (validate_specs raw.scopes ≡ ok specs)
      × (Declaration.new (manifest_of service raw) specs ≡ ok d)
unfolding validate
validate_stages raw d h = ground arith

validate_sound :
    (raw : RawScopeDeclaration) (d : ScopeDeclaration)
    → validate raw ≡ ok d
    → IsDeclaration d × (from d ≡ raw)
unfolding from
validate_sound raw d h =
    let (service, specs, p, q, r) = validate_stages raw d h in
    let k = (ServiceKey.Laws.service_key-eq-ok_iff raw.manifest.key service).0 p in
    let (w, e) = validate_specs-eq-ok raw.scopes specs q in
    let c = (Declaration.Laws.declaration-eq-ok_iff (manifest_of service raw) specs d).0 r in
    (
      record { service_ok = rw (c.1, k.1) k.0; keys_ok = rw c.2 w; consistent = rw (c.1, c.2) c.0 },
      ground (arith, e, c, k),
    )

validate-from_of_IsDeclaration : (d : ScopeDeclaration) → IsDeclaration d → validate (from d) ≡ ok d
unfolding validate from
validate-from_of_IsDeclaration d w =
    rw
      (
        (ServiceKey.Laws.service_key-eq-ok_iff d.manifest.key.text d.manifest.key).1
            (w.service_ok, refl),
        validate_specs-map d.scopes w.keys_ok,
      )
      ((Declaration.Laws.declaration-eq-ok_iff d.manifest d.scopes d).1 (w.consistent, refl, refl))

-- A raw declaration validates to `d` exactly when it is the raw form of `d`, and the keys of `d`
-- are well-formed, each scope has the prefix of its service and no key stands twice.
pub validate-eq-ok_iff :
    (raw : RawScopeDeclaration) (d : ScopeDeclaration)
    → (validate raw ≡ ok d) ↔ (IsDeclaration d × (from d ≡ raw))
validate-eq-ok_iff raw d =
    (validate_sound raw d, λ (w, e). rw (← e) (validate-from_of_IsDeclaration d w))
