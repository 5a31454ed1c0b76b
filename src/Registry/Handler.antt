-- ===== src/Registry/Handler.antt =====
-- crates/br-identity-domain/src/handler.rs: a command is validated and put to the registry.
pub mod Laws
use br_rust_common.Base.{Option, none, some, Result, ok, err}
use mathlib.Core.Option
use br_rust_common.Scope.Error.{ScopeDeclarationError}
use br_rust_common.Scope.ServiceKey.{ServiceKey}
use br_rust_common.Scope.Messages
use br_rust_common.Scope.Messages.{DeclareServiceScopes}
use br_rust_common.Registry.Service.{RejectedIdentity, service, from_raw_key}
use br_rust_common.Registry.Event.{CommandResult}
use br_rust_common.Registry.State.{ScopeRegistry, Registered, register_declaration}

pub data DeclarationOutcome : Type 0 where
  accepted : ServiceKey → CommandResult → DeclarationOutcome
  rejected : RejectedIdentity → ScopeDeclarationError → DeclarationOutcome

abbrev judged : ServiceKey → Registered → ScopeRegistry × DeclarationOutcome
judged key (registry, ok result) = (registry, accepted key result)
judged key (registry, err reason) = (registry, rejected (service key) reason)

-- The registry that the call leaves, and the outcome; `none` is a panic.
unfoldable pub judge_declaration :
    ScopeRegistry → DeclareServiceScopes → Option (ScopeRegistry × DeclarationOutcome)
judge_declaration registry command = elim (Messages.validate command) [
  | err reason ↦ some (registry, rejected (from_raw_key command.declaration.manifest.key) reason)
  | ok declaration ↦
      Option.map (judged declaration.manifest.key) (register_declaration registry declaration)
]
