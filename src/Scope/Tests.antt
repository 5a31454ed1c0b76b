-- ===== src/Scope/Tests.antt =====
-- Runs of crates/br-core-scope on small inputs, with the sample data that other tests use.
use br_rust_common.Base.{false, bytes, List, [], ◌∷◌, ◌++◌, ok, err, map, ◌≡◌, ◌↔◌, refl, split}
use br_rust_common.Scope.Error.{duplicate_scope_in_declaration}
use br_rust_common.Scope.ServiceKey
use br_rust_common.Scope.ServiceKey.{ServiceKey, validate_segment, service_key_max_len}
use br_rust_common.Scope.ScopeKey
use br_rust_common.Scope.ScopeKey.{ScopeKey, service_segment, capability_segment, is_owned_by}
use br_rust_common.Scope.ScopeKey.Laws.{IsKey, scope_key-eq-ok_iff}
use br_rust_common.Scope.Spec.{ScopeSpec, ServiceManifest}
use br_rust_common.Scope.Declaration
use br_rust_common.Scope.Declaration.{ScopeDeclaration, check_scopes}
use br_rust_common.Scope.Declaration.Laws.{IsConsistent, raw_key}
use br_rust_common.Scope.Declaration.Errors.{Offends, declaration-eq-err}
use br_rust_common.Scope.Raw
use br_rust_common.Scope.Raw.{RawScopeDeclaration, validate, from}
use br_rust_common.Scope.Raw.Laws.{IsDeclaration, validate-eq-ok_iff}

abbrev pub fleet : ServiceKey
fleet = record { text = bytes "fleet" }

abbrev pub fleet_read : ScopeKey
fleet_read = record { raw = bytes "fleet:read"; colon = 5 }

abbrev pub fleet_write : ScopeKey
fleet_write = record { raw = bytes "fleet:write"; colon = 5 }

abbrev pub spec_of : ScopeKey → ScopeSpec
spec_of k = record {
  key = k;
  label_key = bytes "label";
  description_key = bytes "description";
  platform_only = false;
}

abbrev pub fleet_manifest : ServiceManifest
fleet_manifest = record {
  key = fleet;
  label_key = bytes "label";
  description_key = bytes "description";
}

abbrev pub two_scopes : List ScopeSpec
two_scopes = spec_of fleet_read ∷ spec_of fleet_write ∷ []

abbrev pub fleet_declaration : ScopeDeclaration
fleet_declaration = record { manifest = fleet_manifest; scopes = two_scopes }

-- A key declared twice.
abbrev twice : List ScopeSpec
twice = spec_of fleet_read ∷ spec_of fleet_write ∷ spec_of fleet_read ∷ []

new-fleet_read : ScopeKey.new (bytes "fleet:read") ≡ ok fleet_read
unfolding ScopeKey.new validate_segment split
new-fleet_read = refl

pub two_scopes-IsConsistent : IsConsistent fleet two_scopes
unfolding is_owned_by
two_scopes-IsConsistent = record { owned = refl; unique = refl }

scope_key-eq-ok_iff_example :
    (ScopeKey.new (bytes "fleet:read") ≡ ok fleet_read)
    ↔ (IsKey fleet_read × (fleet_read.raw ≡ bytes "fleet:read"))
scope_key-eq-ok_iff_example = scope_key-eq-ok_iff (bytes "fleet:read") fleet_read

new-twice :
    Declaration.new fleet_manifest twice ≡ err (duplicate_scope_in_declaration (bytes "fleet:read"))
unfolding Declaration.new check_scopes is_owned_by
new-twice = refl

declaration-eq-err_example :
    (before : List ScopeSpec) × (spec : ScopeSpec) × (after : List ScopeSpec) × (twice
      ≡ before ++ spec ∷ after)
    × IsConsistent fleet before
    × Offends fleet (map raw_key before) spec (duplicate_scope_in_declaration (bytes "fleet:read"))
declaration-eq-err_example =
    declaration-eq-err fleet_manifest twice (duplicate_scope_in_declaration (bytes "fleet:read"))
      new-twice

validate-eq-ok_iff_example :
    (validate (from fleet_declaration) ≡ ok fleet_declaration)
    ↔ (IsDeclaration fleet_declaration × (from fleet_declaration ≡ from fleet_declaration))
validate-eq-ok_iff_example = validate-eq-ok_iff (from fleet_declaration) fleet_declaration

pub validate_fleet : validate (from fleet_declaration) ≡ ok fleet_declaration
unfolding validate from Raw.validate_spec Raw.validate_specs Raw.raw_of_spec ServiceKey.new
    ScopeKey.new validate_segment Declaration.new check_scopes is_owned_by split
validate_fleet = refl
