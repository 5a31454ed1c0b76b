-- ===== src/Outbox/MessageId.antt =====
-- crates/br-util-nats-fabric/src/outbox/msg_id.rs: the id a message is deduplicated by.
-- A `Uuid` is the number of its 128 bits; the JSON and the UUID parsers are arguments.
use br_rust_common.Base.{ℕ, Text, Option, none, some}

pub data MessageIdSource : Type 0 where
  envelope row : MessageIdSource

module _ {ℓ} {P : Type ℓ} (event_id_text : P → Option Text) (parse_uuid : Text → Option ℕ) where
  unfoldable pub message_id_for : ℕ → P → ℕ × MessageIdSource
  message_id_for row_id payload = elim (event_id_text payload) [
    | some raw ↦ elim (parse_uuid raw) [
      | some event_id ↦ (event_id, envelope)
      | none ↦ (row_id, row)
    ]
    | none ↦ (row_id, row)
  ]
