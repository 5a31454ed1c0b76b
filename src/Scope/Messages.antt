-- ===== src/Scope/Messages.antt =====
-- crates/br-core-scope/src/messages.rs: the command and the two confirmations.
use br_rust_common.Base.{Result}
use br_rust_common.Scope.Error.{ScopeDeclarationError}
use br_rust_common.Scope.ServiceKey.{ServiceKey}
use br_rust_common.Scope.Declaration.{ScopeDeclaration}
use br_rust_common.Scope.Raw
use br_rust_common.Scope.Raw.{RawScopeDeclaration}

pub record DeclareServiceScopes : Type 0 where
  pub declaration : RawScopeDeclaration

unfoldable pub new : ScopeDeclaration → DeclareServiceScopes
new declaration = record { declaration = Raw.from declaration }

unfoldable pub validate : DeclareServiceScopes → Result ScopeDeclaration ScopeDeclarationError
validate command = Raw.validate command.declaration

pub record ServiceScopesAccepted : Type 0 where
  pub service : ServiceKey

pub record ServiceScopesRejected : Type 0 where
  pub service : ServiceKey
  pub reason : ScopeDeclarationError
