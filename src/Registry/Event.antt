-- ===== src/Registry/Event.antt =====
-- crates/br-identity-domain/src/event.rs and error.rs.
use br_rust_common.Base.{Bool, Text, List, [], ◌&&◌, is_empty}
use br_rust_common.Scope.ServiceKey.{ServiceKey}
use br_rust_common.Scope.ScopeKey.{ScopeKey}

pub data RegistryEvent : Type 0 where
  service_registered : (service : ServiceKey) (label_key description_key : Text) → RegistryEvent
  scope_registered :
      (key : ScopeKey) (owning_service : ServiceKey) (label_key description_key : Text)
      (platform_only : Bool)
      → RegistryEvent

-- An enum with no variant.
pub data RegistryWarning : Type 0 where

pub record CommandResult : Type 0 where
  pub events : List RegistryEvent
  pub warnings : List RegistryWarning

-- `CommandResult::default`.
abbrev pub no_result : CommandResult
no_result = record { events = []; warnings = [] }

unfoldable pub from_events : List RegistryEvent → CommandResult
from_events events = record { events = events; warnings = [] }

unfoldable pub is_noop : CommandResult → Bool
is_noop result = is_empty result.events && is_empty result.warnings

pub data RegistryHydrationError : Type 0 where
  duplicate_scope : ScopeKey → RegistryHydrationError
  duplicate_service : ServiceKey → RegistryHydrationError
  scope_owner_mismatch : (key : ScopeKey) (owning_service : ServiceKey) → RegistryHydrationError
