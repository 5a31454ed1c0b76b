-- ===== src/Outbox/Relay.antt =====
-- crates/br-util-nats-fabric/src/outbox/relay.rs: a pass of the relay over the table.
-- The broker, the clock, the JSON and UUID parsers and `Display` are arguments; the broker and the
-- clock read and change a `world`. An error of SQL and the logging are left out.
pub mod Turns
pub mod Counts
pub mod Kept
pub mod Drain
use br_rust_common.Base.{
  ℕ, zero, suc, ◌+◌, Bool, true, false, Text, List, [], ◌∷◌, Option, none, some, Result, ok, err,
  if◌then◌else◌,
}
use br_rust_common.Coords.{EventCoords}
use br_rust_common.Fabric.Error.{FabricError, PublishOutcome}
use br_rust_common.Outbox.Retry.{max}
use br_rust_common.Outbox.Status.{OutboxStatus, pending, Transition, next_after_attempt}
use br_rust_common.Outbox.Report.{
  FailureClass, structural_failure, transient_failure, RelayPolicy, RelayPass, default_pass,
  classify_failure, classify_pass,
}
use br_rust_common.Outbox.MessageId.{MessageIdSource, envelope, row, message_id_for}
use br_rust_common.Outbox.Table.{
  OutboxRow, PendingOutbox, OutboxStoreError, fetch_one_pending, apply_transition,
}

module _ {ℓ κ} (P : Type ℓ) (W : Type κ) where
  pub record RelayState : Type (ℓ ⊔ κ) where
    pub table : List (OutboxRow P)
    pub pass : RelayPass
    pub world : W

  -- What the relay calls and is not its own.
  pub record Outside : Type (ℓ ⊔ κ) where
    pub publish_event_value_with_id :
        EventCoords → P → ℕ → W → Result PublishOutcome FabricError × W
    pub now : W → ℕ
    pub event_id_text : P → Option Text
    pub parse_uuid : Text → Option ℕ
    pub display : FabricError → Text

abbrev pub is_structural : Result PublishOutcome FabricError → Bool
is_structural (ok outcome) = false
is_structural (err e) = elim (classify_failure e) [
  | structural_failure ↦ true
  | transient_failure ↦ false
]

abbrev pub is_ok : Result PublishOutcome FabricError → Bool
is_ok (ok outcome) = true
is_ok (err e) = false

unfoldable pub transition_for : RelayPolicy → ℕ → Result PublishOutcome FabricError → Transition
transition_for policy attempts result =
    if is_structural result
    then record { status = pending; attempts = attempts }
    else next_after_attempt attempts policy.max_attempts (is_ok result)

abbrev pub error_text : (FabricError → Text) → Result PublishOutcome FabricError → Option Text
error_text display (ok outcome) = none
error_text display (err e) = some (display e)

abbrev pub count_picked : RelayPass → MessageIdSource → RelayPass
count_picked pass envelope = record pass { picked = pass.picked + 1 }
count_picked pass row = record pass {
  picked = pass.picked + 1;
  row_id_fallbacks = pass.row_id_fallbacks + 1;
}

module _ {ℓ κ} {P : Type ℓ} {W : Type κ} (outside : Outside P W) (policy : RelayPolicy) where
  -- The part of `process_one` after a row was fetched.
  unfoldable pub process_record : PendingOutbox P → RelayState P W → RelayState P W
  process_record found s =
      let (message_id, id_source) =
        message_id_for outside.event_id_text outside.parse_uuid found.id found.payload in
      let (result, world) =
        outside.publish_event_value_with_id found.destination found.payload message_id s.world in
      let transition = transition_for policy found.attempts result in
      record {
        table =
            apply_transition s.table found.id transition (error_text outside.display result)
              (outside.now world);
        pass =
            classify_pass (count_picked s.pass id_source) result transition (is_structural result);
        world = world;
      }

  unfoldable pub process_one :
      ℕ → RelayState P W → Result (Option ℕ) OutboxStoreError × RelayState P W
  process_one after s = elim (fetch_one_pending s.table after) [
    | err e ↦ (err e, s)
    | ok none ↦ (ok none, s)
    | ok (some r) ↦ (ok (some r.id), process_record r s)
  ]

  -- The `for` loop, for the turns that are left.
  unfoldable pub run_turns :
      ℕ → ℕ → RelayState P W → Result (Unit {0}) OutboxStoreError × RelayState P W
  run_turns zero cursor s = (ok tt, s)
  run_turns (suc turns) cursor s =
      let (fetched, t) = process_one cursor s in
      elim fetched [
        | err e ↦ (err e, t)
        | ok none ↦ (ok tt, t)
        | ok (some id) ↦ run_turns turns id t
      ]

  unfoldable pub run_once_detailed :
      List (OutboxRow P) → W → Result (Unit {0}) OutboxStoreError × RelayState P W
  run_once_detailed table world =
      run_turns (max policy.max_messages 1) 0
        (record { table = table; pass = default_pass; world = world })
