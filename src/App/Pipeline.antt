-- ===== src/App/Pipeline.antt =====
-- crates/br-identity-app/src/pipeline.rs and consumer.rs: a command is judged against the stored
-- registry, saved under an optimistic lock, and confirmed.
pub mod Total
pub mod Saved
pub mod Laws
use br_rust_common.Base.{
  ℕ, zero, suc, Text, bytes, Option, none, some, Result, ok, err, ◌*◌, ◌>>=◌, ◌>>◌, if◌then◌else◌,
}
use br_rust_common.Scope.Error.{ScopeDeclarationError, scope_owned_by_another_service}
use br_rust_common.Scope.ServiceKey
use br_rust_common.Scope.ServiceKey.{ServiceKey}
use br_rust_common.Scope.Messages.{DeclareServiceScopes}
use br_rust_common.Registry.Service.{RejectedIdentity, service, unrepresentable}
use br_rust_common.Registry.Event.{CommandResult}
use br_rust_common.Registry.State.{ScopeRegistry}
use br_rust_common.Registry.Handler.{DeclarationOutcome, accepted, rejected, judge_declaration}
use br_rust_common.App.Error.{
  AppError, is_permanent, conflict_retries_exhausted, SaveOutcome, persisted, version_conflict,
  scope_conflict,
}
use br_rust_common.Fabric.Consumer.Run.{MessageOutcome, ack, nak}

abbrev pub max_attempts : ℕ
max_attempts = 5

-- What the pipeline works with: the repository and the publisher, over a world of their own.
pub record Services {ℓ} (W : Type ℓ) : Type ℓ where
  pub load : W → Result (ScopeRegistry × ℕ) AppError × W
  pub save : ScopeRegistry → ℕ → W → Result SaveOutcome AppError × W
  pub publish_accepted : DeclareServiceScopes → ServiceKey → W → Result (Unit {0}) AppError × W
  pub publish_rejected :
      DeclareServiceScopes → ServiceKey → ScopeDeclarationError → W → Result (Unit {0}) AppError × W

-- The name of the service that a rejection is sent to when the declaring one has no key, from
-- crates/br-scope-declaration-contract/src/lib.rs.
abbrev pub unrepresentable_service : Text
unrepresentable_service = bytes "unrepresentable_service"

-- `none` is the panic of `expect`.
unfoldable pub reply_service : RejectedIdentity → Option ServiceKey
reply_service (service k) = some k
reply_service (unrepresentable raw) = elim (ServiceKey.new unrepresentable_service) [
  | ok k ↦ some k
  | err _ ↦ none
]

pub data Turn : Type 0 where
  finished : Result DeclarationOutcome AppError → Turn
  retried : Turn

-- A turn that returns what `reject` gives.
abbrev pub returned {ℓ} :
    {W : Type ℓ} → Option (Result DeclarationOutcome AppError × W) → Option (Turn × W)
returned none = none
returned (some (result, w)) = some (finished result, w)

-- In each function, `none` is a panic.
module _ {ℓ} {W : Type ℓ} (services : Services W) where
  unfoldable pub reject :
      DeclareServiceScopes
      → RejectedIdentity
      → ScopeDeclarationError
      → W
      → Option (Result DeclarationOutcome AppError × W)
  reject command identity reason w = elim (reply_service identity) [
    | none ↦ none
    | some k ↦
        let (published, w') = services.publish_rejected command k reason w in
        some (published >> ok (rejected identity reason), w')
  ]

  -- The `match` on what `save` gives.
  unfoldable pub after_save :
      DeclareServiceScopes → ServiceKey → CommandResult → SaveOutcome → W → Option (Turn × W)
  after_save command k result persisted w =
      let (published, w') = services.publish_accepted command k w in
      some (finished (published >> ok (accepted k result)), w')
  after_save command k result version_conflict w = some (retried, w)
  after_save command k result (scope_conflict scope_key owner) w =
      returned (reject command (service k) (scope_owned_by_another_service scope_key owner) w)

  -- The `match` on the judgement.
  unfoldable pub after_judgement :
      DeclareServiceScopes → ℕ → ScopeRegistry → DeclarationOutcome → W → Option (Turn × W)
  after_judgement command loaded_version registry (rejected identity reason) w =
      returned (reject command identity reason w)
  after_judgement command loaded_version registry (accepted k result) w =
      let (saved, w') = services.save registry loaded_version w in
      elim saved [
        | err e ↦ some (finished (err e), w')
        | ok outcome ↦ after_save command k result outcome w'
      ]

  -- The body of the loop.
  unfoldable pub turn : DeclareServiceScopes → W → Option (Turn × W)
  turn command w =
      let (loaded, w') = services.load w in
      elim loaded [
        | err e ↦ some (finished (err e), w')
        | ok head ↦ elim (judge_declaration head.0 command) [
          | none ↦ none
          | some judged ↦ after_judgement command head.1 judged.0 judged.1 w'
        ]
      ]

  unfoldable pub handle_turns :
      ℕ → DeclareServiceScopes → W → Option (Result DeclarationOutcome AppError × W)
  handle_turns zero command w = some (err (conflict_retries_exhausted max_attempts), w)
  handle_turns (suc turns) command w = elim (turn command w) [
    | none ↦ none
    | some out ↦
        let (t, w') = out in
        elim t [ finished result ↦ some (result, w') | retried ↦ handle_turns turns command w' ]
  ]

  unfoldable pub handle : DeclareServiceScopes → W → Option (Result DeclarationOutcome AppError × W)
  handle command w = handle_turns max_attempts command w

-- `handle_delivery` of consumer.rs, on what the pipeline gave: the outcome of the message, and the
-- error that the callback for permanent failures is given. The delay is in nanoseconds.
unfoldable pub handle_delivery :
    Result DeclarationOutcome AppError → MessageOutcome × Option AppError
handle_delivery (ok outcome) = (ack, none)
handle_delivery (err e) = (nak (some (5 * 1000000000)), if is_permanent e then some e else none)
