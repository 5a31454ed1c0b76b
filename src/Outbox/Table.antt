-- ===== src/Outbox/Table.antt =====
-- crates/br-util-nats-fabric/src/outbox/store.rs: the table of the outbox and its two queries.
-- The table is the list of its rows in the order of their ids, read by one relay at a time
-- (`FOR UPDATE SKIP LOCKED` skips no row). An id is the number of the 128 bits of a `Uuid`.
pub mod Laws
pub mod Pending
pub mod Fetch
use br_rust_common.Base.{
  ℕ, ◌%◌, ◌^◌, Bool, true, false, ◌&&◌, Text, bytes, List, [], ◌∷◌, Option, none, some, Result, ok,
  err, ◌>>=◌, map_err, if◌then◌else◌, ltb, ◌==◌, text_Eq, nat_Eq, find, map,
}
use br_rust_common.Coords.{EventCoords}
use br_rust_common.Fabric.Subject.{EventSubjectParseError, parse_event_subject}
use br_rust_common.Outbox.Status.{OutboxStatus, as_db_str, Transition, published}

-- The `i64` of a column: `pos n` is n and `negsuc n` is -1 - n.
pub data ℤ : Type 0 where
  pos negsuc : ℕ → ℤ

-- `attempts.max(0) as u32`.
abbrev pub to_u32 : ℤ → ℕ
to_u32 (pos n) = n % 2 ^ 32
to_u32 (negsuc n) = 0

module _ {ℓ} (P : Type ℓ) where
  pub record OutboxRow : Type ℓ where
    pub id : ℕ
    pub subject : Text
    pub payload : P
    pub status : Text
    pub attempts : ℤ
    pub last_error : Option Text
    pub published_at : Option ℕ

  pub record PendingOutbox : Type ℓ where
    pub id : ℕ
    pub destination : EventCoords
    pub payload : P
    pub attempts : ℕ

pub data OutboxStoreError : Type 0 where
  destination : ℕ → EventSubjectParseError → OutboxStoreError

abbrev pub is_published : OutboxStatus → Bool
is_published published = true
is_published status = false

module _ {ℓ} {P : Type ℓ} where
  unfoldable pub into_pending : OutboxRow P → Result (PendingOutbox P) OutboxStoreError
  into_pending row = do
    coords ← map_err (destination row.id) (parse_event_subject row.subject)
    ok (record {
      id = row.id;
      destination = coords;
      payload = row.payload;
      attempts = to_u32 row.attempts;
    })

  abbrev pub is_pending_after : ℕ → OutboxRow P → Bool
  is_pending_after after row = (row.status == bytes "PENDING") && ltb after row.id

  unfoldable pub select_pending : List (OutboxRow P) → ℕ → Option (OutboxRow P)
  select_pending table after = find (is_pending_after after) table

  unfoldable pub fetch_one_pending :
      List (OutboxRow P) → ℕ → Result (Option (PendingOutbox P)) OutboxStoreError
  fetch_one_pending table after = elim (select_pending table after) [
    | none ↦ ok none
    | some row ↦ into_pending row >>= λ found. ok (some found)
  ]

  unfoldable pub update_row : ℕ → Transition → Option Text → ℕ → OutboxRow P → OutboxRow P
  update_row id transition last_error now row =
      if row.id == id
      then record row {
        status = as_db_str transition.status;
        attempts = pos transition.attempts;
        last_error = last_error;
        published_at = if is_published transition.status then some now else row.published_at;
      }
      else row

  unfoldable pub apply_transition :
      List (OutboxRow P) → ℕ → Transition → Option Text → ℕ → List (OutboxRow P)
  apply_transition table id transition last_error now =
      map (update_row id transition last_error now) table
