-- ===== src/Fabric/Consumer/Run.antt =====
-- crates/br-util-nats-fabric/src/consumer/run.rs: `run_inner`, and `MessageOutcome` of
-- crates/br-core-integration/src/outcome.rs. What the source gives is two lists, the results of
-- its calls of `next` and of `rebind`; the loop still runs when it waits for one that is not
-- there. The decoder, the handler with its state, and the kinds of acknowledgement are arguments;
-- whether an acknowledgement reaches the broker is only logged.
pub mod Laws
use br_rust_common.Base.{
  ℕ, Bool, Text, List, [], ◌∷◌, Option, none, some, Result, ok, err, if◌then◌else◌,
}
use br_rust_common.Fabric.Error
use br_rust_common.Fabric.Error.{FabricError}
use br_rust_common.Fabric.Consumer.Backoff.{Backoff}
use br_rust_common.Fabric.Consumer.Recovery.{
  Recovery, RecoverEnd, recovered, gave_up, waiting, recover, note_delivery, should_recover,
}
use br_rust_common.Fabric.Consumer.Recovery

pub data MessageOutcome : Type 0 where
  ack : MessageOutcome
  nak : Option ℕ → MessageOutcome
  term : MessageOutcome

pub record Frame : Type 0 where
  pub subject : Text
  pub payload : Text

pub data SourceNext : Type 0 where
  closed : SourceNext
  failed : FabricError → SourceNext
  delivered : Frame → SourceNext

pub data RunEnd : Type 0 where
  returned : Result (Unit {0}) FabricError → RunEnd
  still_running : RunEnd

module _ {ℓ κ} (AckKind : Type ℓ) (E : Type κ) where
  -- What the loop does to the outside, in order.
  pub data Effect : Type (ℓ ⊔ κ) where
    handled : Text → E → Effect
    acked : Frame → AckKind → Effect
    poisoned : FabricError → Effect

  -- What the loop calls and is not its own; `H` is the state of the handler.
  pub record Calls {μ} (H : Type μ) : Type (ℓ ⊔ κ ⊔ μ) where
    pub ack_ack : AckKind
    pub ack_nak : Option ℕ → AckKind
    pub ack_term : AckKind
    pub from_slice : Text → Result E Text
    pub handler : Text → E → H → MessageOutcome × H

module _ {ℓ κ μ} {AckKind : Type ℓ} {E : Type κ} {H : Type μ} (calls : Calls AckKind E H) where
  unfoldable pub ack_kind : MessageOutcome → AckKind
  ack_kind ack = calls.ack_ack
  ack_kind (nak delay) = calls.ack_nak delay
  ack_kind term = calls.ack_term

  unfoldable pub run :
      List SourceNext
      → List (Result (Unit {0}) FabricError)
      → Recovery
      → H
      → RunEnd × List (Effect AckKind E)
  run [] rebinds recovery h = (still_running, [])
  run (closed ∷ nexts) rebinds recovery h = (returned (ok tt), [])
  run (failed error ∷ nexts) rebinds recovery h =
      if should_recover error
      then (let (end, recovery', rebinds') = recover rebinds recovery error in
          elim end [
            | recovered ↦ run nexts rebinds' recovery' h
            | gave_up e ↦ (returned (err e), [])
            | waiting ↦ (still_running, [])
          ])
      else (returned (err error), [])
  run (delivered frame ∷ nexts) rebinds recovery h = elim (calls.from_slice frame.payload) [
    | ok envelope ↦
        let (outcome, h') = calls.handler frame.subject envelope h in
        let (end, effects) = run nexts rebinds (note_delivery recovery) h' in
        (end, handled frame.subject envelope ∷ acked frame (ack_kind outcome) ∷ effects)
    | err detail ↦
        let (end, effects) = run nexts rebinds recovery h in
        (end, acked frame calls.ack_term ∷ poisoned (Error.decode frame.subject detail) ∷ effects)
  ]

  -- `run_inner`, from the start.
  unfoldable pub run_inner :
      List SourceNext
      → List (Result (Unit {0}) FabricError)
      → Backoff
      → H
      → RunEnd × List (Effect AckKind E)
  run_inner nexts rebinds backoff h = run nexts rebinds (Recovery.new backoff) h
