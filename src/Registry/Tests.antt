-- ===== src/Registry/Tests.antt =====
-- Runs of crates/br-identity-domain on small inputs.
use br_rust_common.Base.{
  none, true, false, bytes, List, [], ◌∷◌, some, ok, map, contains, split, ◌≡◌, ◌⊎◌, ◌↔◌, refl,
  if◌then◌else◌, ◌+◌, ◌%◌, ◌^◌,
}
use br_rust_common.Scope.Error.{ScopeDeclarationError, scope_prefix_mismatch}
use br_rust_common.Scope.ServiceKey
use br_rust_common.Scope.ServiceKey.{ServiceKey, validate_segment}
use br_rust_common.Scope.ScopeKey
use br_rust_common.Scope.ScopeKey.{ScopeKey, scope_key_Eq, is_owned_by, service_segment}
use br_rust_common.Scope.Declaration
use br_rust_common.Scope.Declaration.{ScopeDeclaration, check_scopes}
use br_rust_common.Scope.Raw
use br_rust_common.Scope.Raw.{from}
use br_rust_common.Scope.Messages
use br_rust_common.Scope.Messages.{DeclareServiceScopes}
use br_rust_common.Scope.Tests.{
  fleet, fleet_read, fleet_write, spec_of, fleet_manifest, two_scopes, fleet_declaration,
  two_scopes-IsConsistent, validate_fleet,
}
use br_rust_common.Registry.Service
use br_rust_common.Registry.Service.{
  RegisteredService, RejectedIdentity, service, from_raw_key, push_scope, owns_key,
}
use br_rust_common.Registry.Event.{
  RegistryEvent, service_registered, CommandResult, no_result, from_events, is_noop,
}
use br_rust_common.Registry.State
use br_rust_common.Registry.State.{
  ScopeRegistry, hydrate, register_declaration, find_service, owner_of, find_in, owner_in,
  check_owners, ensure_service, register_scopes, write_service, scope_registered_event,
}
use br_rust_common.Registry.State.Valid.{scope_of, IsRegistry}
use br_rust_common.Registry.State.Hydrate.{stored}
use br_rust_common.Registry.State.Stored.{hydrate-eq-ok_iff}
use br_rust_common.Registry.State.Register.{register_declaration-accepts}
use br_rust_common.Registry.State.Events.{register_declaration-version}
use br_rust_common.Registry.State.Again.{scope_events, register_declaration-again}
use br_rust_common.Registry.Handler.{accepted, rejected, judge_declaration}
use br_rust_common.Registry.Handler.Laws.{
  judge_declaration-accepted, judge_all, judge_all-IsRegistry,
}

abbrev empty_registry : ScopeRegistry
empty_registry = State.new

-- The service `fleet` with one scope, at version 3.
abbrev one_scope : RegisteredService
one_scope = record { manifest = fleet_manifest; scopes = spec_of fleet_read ∷ [] }

abbrev known : ScopeRegistry
known = record { version = 3; services = one_scope ∷ [] }

abbrev full : ScopeRegistry
full = record {
  version = 4;
  services = record { manifest = fleet_manifest; scopes = two_scopes } ∷ [];
}

abbrev write_event : RegistryEvent
write_event = scope_registered_event (spec_of fleet_write) fleet

abbrev first_events : List RegistryEvent
first_events =
    service_registered fleet (bytes "label") (bytes "description")
    ∷ scope_events fleet_declaration two_scopes

abbrev first : ScopeRegistry
first = record {
  version = 1;
  services = record { manifest = fleet_manifest; scopes = two_scopes } ∷ [];
}

known-IsRegistry : IsRegistry known
unfolding is_owned_by
known-IsRegistry = record { each = (record { owned = refl; unique = refl }, tt); unique = refl }

empty-IsRegistry : IsRegistry empty_registry
empty-IsRegistry = record { each = tt; unique = refl }

register_known :
    register_declaration known fleet_declaration
    ≡ some (full, ok (record { events = write_event ∷ []; warnings = [] }))
unfolding register_declaration find_in check_owners ensure_service register_scopes write_service
    owner_of owner_in push_scope owns_key from_events
register_known = refl

register_first :
    register_declaration empty_registry fleet_declaration
    ≡ some (first, ok (record { events = first_events; warnings = [] }))
unfolding register_declaration find_in check_owners ensure_service register_scopes write_service
    owner_of owner_in push_scope owns_key from_events Service.new
register_first = refl

register_declaration-accepts_example :
    (after : ScopeRegistry) × (result : CommandResult) × (register_declaration known
        fleet_declaration
      ≡ some (after, ok result))
    × IsRegistry after
    × ((q : ScopeKey)
        → owner_of after q
          ≡ (if contains (map scope_of two_scopes) q then some fleet else owner_of known q))
register_declaration-accepts_example =
    register_declaration-accepts known fleet_declaration known-IsRegistry two_scopes-IsConsistent

register_declaration-version_example :
    ((is_noop (record { events = write_event ∷ []; warnings = [] }) ≡ true) × (full ≡ known))
    ⊎ ((is_noop (record { events = write_event ∷ []; warnings = [] }) ≡ false)
        × (full.version ≡ (known.version + 1) % 2 ^ 64))
register_declaration-version_example =
    register_declaration-version known full fleet_declaration
      (record { events = write_event ∷ []; warnings = [] }) register_known

register_declaration-again_example :
    register_declaration full fleet_declaration ≡ some (full, ok no_result)
register_declaration-again_example =
    register_declaration-again known full fleet_declaration
      (record { events = write_event ∷ []; warnings = [] }) known-IsRegistry two_scopes-IsConsistent
      register_known

hydrate-eq-ok_iff_example :
    (hydrate 3 (stored known.services) ≡ ok known)
    ↔ (IsRegistry known × (known.version ≡ 3) × (stored known.services ≡ stored known.services))
hydrate-eq-ok_iff_example = hydrate-eq-ok_iff 3 (stored known.services) known

abbrev command : DeclareServiceScopes
command = record { declaration = from fleet_declaration }

validate-command : Messages.validate command ≡ ok fleet_declaration
unfolding Messages.validate
validate-command = validate_fleet

judge_declaration-accepted_example :
    (after : ScopeRegistry) × (result : CommandResult) × (judge_declaration known command
      ≡ some (after, accepted fleet result))
    × IsRegistry after
judge_declaration-accepted_example =
    judge_declaration-accepted known command fleet_declaration known-IsRegistry validate-command

-- A command of the service `ops` that declares a scope of `fleet`.
abbrev foreign : DeclareServiceScopes
foreign = record {
  declaration = record {
    manifest = record { key = bytes "ops"; label_key = bytes "l"; description_key = bytes "d" };
    scopes = Raw.raw_of_spec (spec_of fleet_read) ∷ [];
  };
}

abbrev ops : ServiceKey
ops = record { text = bytes "ops" }

abbrev mismatch : ScopeDeclarationError
mismatch = scope_prefix_mismatch (bytes "fleet") (bytes "ops")

judge_foreign : judge_declaration known foreign ≡ some (known, rejected (service ops) mismatch)
unfolding judge_declaration Messages.validate Raw.validate Raw.validate_spec Raw.validate_specs
    Raw.raw_of_spec ServiceKey.new ScopeKey.new validate_segment Declaration.new check_scopes
    is_owned_by service_segment split from_raw_key
judge_foreign = refl

judge_all-IsRegistry_example :
    (after : ScopeRegistry) × (judge_all known (foreign ∷ command ∷ []) ≡ some after)
    × IsRegistry after
    × ((q : ScopeKey) → (owner_of known q ≡ none) ⊎ (owner_of after q ≡ owner_of known q))
judge_all-IsRegistry_example = judge_all-IsRegistry known (foreign ∷ command ∷ []) known-IsRegistry
