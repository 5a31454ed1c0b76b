-- ===== src/App/Tests.antt =====
-- Runs of crates/br-identity-app on small inputs.
use br_rust_common.Base.{ℕ, false, bytes, List, [], ◌∷◌, some, Result, ok, split, ◌≡◌, refl}
use br_rust_common.Scope.ServiceKey
use br_rust_common.Scope.ServiceKey.{ServiceKey, validate_segment}
use br_rust_common.Registry.Event.{CommandResult}
use br_rust_common.Scope.ScopeKey
use br_rust_common.Scope.Spec.{ScopeSpec, ServiceManifest}
use br_rust_common.Scope.Raw.{from}
use br_rust_common.Scope.Messages
use br_rust_common.Scope.Messages.{DeclareServiceScopes}
use br_rust_common.Scope.Tests.{
  fleet_manifest, fleet_read, spec_of, fleet_declaration, validate_fleet,
}
use br_rust_common.Registry.Handler.{DeclarationOutcome, accepted}
use br_rust_common.Registry.State
use br_rust_common.Registry.State.Valid.{IsRegistry}
use br_rust_common.App.Error.{AppError, version_conflict}
use br_rust_common.App.Hydration.{
  ServiceRow, ScopeRow, build_hydration_input, read_services, read_scopes, push_to,
  parse_service_key, parse_scope_key,
}
use br_rust_common.App.Pipeline.{Services, handle}
use br_rust_common.App.Pipeline.Total.{IsLoading}
use br_rust_common.App.Pipeline.Saved.{IsSaved}
use br_rust_common.App.Pipeline.Laws.{IsContended, handle_total}

abbrev service_rows : List ServiceRow
service_rows =
    record {
      service_key = bytes "fleet";
      label_key = bytes "label";
      description_key = bytes "description";
    }
    ∷ []

abbrev scope_rows : List ScopeRow
scope_rows =
    record {
      scope_key = bytes "fleet:read";
      owning_service = bytes "fleet";
      label_key = bytes "label";
      description_key = bytes "description";
      platform_only = false;
    }
    ∷ []

abbrev grouped : List (ServiceManifest × List ScopeSpec)
grouped = (fleet_manifest, spec_of fleet_read ∷ []) ∷ []

build-fleet : build_hydration_input service_rows scope_rows ≡ ok grouped
unfolding build_hydration_input read_services read_scopes push_to parse_service_key parse_scope_key
    ServiceKey.new ScopeKey.new validate_segment split
build-fleet = refl

-- A store whose version has always moved on, and a publisher that works.
abbrev contended : Services ℕ
contended = record {
  load = λ w. (ok (State.new, 0), w);
  save = λ registry version w. (ok version_conflict, w);
  publish_accepted = λ command k w. (ok tt, w);
  publish_rejected = λ command k reason w. (ok tt, w);
}

new-IsRegistry : IsRegistry State.new
new-IsRegistry = record { each = tt; unique = refl }

abbrev command : DeclareServiceScopes
command = record { declaration = from fleet_declaration }

validate-command : Messages.validate command ≡ ok fleet_declaration
unfolding Messages.validate
validate-command = validate_fleet

contended-IsLoading : IsLoading contended
contended-IsLoading w registry version h = let e : registry ≡ State.new = cc in rw e new-IsRegistry

contended-IsContended : IsContended contended command
contended-IsContended w = ((State.new, 0), refl, new-IsRegistry, λ registry v. refl)

handle_total_example :
    (out : Result DeclarationOutcome AppError × ℕ) × (handle contended command 0 ≡ some out)
    × ((k : ServiceKey) (result : CommandResult)
        → out.0 ≡ ok (accepted k result)
        → IsSaved contended command k result 0 out.1)
handle_total_example = handle_total contended command 0 contended-IsLoading
