-- ===== src/Outbox/Relay/Drain.antt =====
-- crates/br-util-nats-fabric/src/outbox/relay.rs: a pass with a broker that accepts everything.
use br_rust_common.Base.{
  ℕ, zero, suc, ◌+◌, ◌≤◌, Text, List, [], ◌∷◌, Option, none, some, ok, All, ◌≡◌, ◌==◌, text_Eq,
  bytes, false, refl, arith, Result-cases, inl, inr,
}
use br_rust_common.Coords.{EventCoords}
use br_rust_common.Fabric.Error.{PublishOutcome}
use br_rust_common.Fabric.Subject.{parse_event_subject}
use br_rust_common.Outbox.Retry.{max}
use br_rust_common.Outbox.Status.{Transition, as_db_str, next_after_attempt}
use br_rust_common.Outbox.Report.{RelayPolicy, default_pass}
use br_rust_common.Outbox.MessageId.{message_id_for}
use br_rust_common.Outbox.Table.{
  OutboxRow, PendingOutbox, fetch_one_pending, select_pending, update_row, apply_transition,
}
use br_rust_common.Outbox.Table.Fetch.{
  fetch_one_pending-some, fetch_one_pending-none, fetch_one_pending-err,
}
use br_rust_common.Outbox.Table.Laws.{IsOrdered, select_pending-cons}
use br_rust_common.Outbox.Table.Pending.{
  IsPendingAbove, count_pending, apply_transition-drains, select_pending-none,
  IsOrdered-IsPendingAbove,
}
use br_rust_common.Outbox.Relay.{
  RelayState, Outside, transition_for, process_record, run_turns, run_once_detailed,
}
use br_rust_common.Outbox.Relay.Kept.{process_record-IsOrdered}
use br_rust_common.Outbox.Relay.Turns.{run_turns-zero, run_turns-drained, run_turns-step}

module _ {ℓ} {P : Type ℓ} where
  abbrev pub IsReadable : OutboxRow P → Type 0
  IsReadable row = (c : EventCoords) × (parse_event_subject row.subject ≡ ok c)

  update_row-subject :
      (k : ℕ) (t : Transition) (e : Option Text) (now : ℕ) (row : OutboxRow P)
      → (update_row k t e now row).subject ≡ row.subject
  unfolding update_row
  update_row-subject k t e now row = ground arith

  apply_transition-IsReadable :
      (rows : List (OutboxRow P)) (k : ℕ) (t : Transition) (e : Option Text) (now : ℕ)
      → All IsReadable rows
      → All IsReadable (apply_transition rows k t e now)
  unfolding apply_transition
  apply_transition-IsReadable [] k t e now a = tt
  apply_transition-IsReadable (r ∷ rows) k t e now ((c, p), a) =
      ((c, rw (update_row-subject k t e now r) p), apply_transition-IsReadable rows k t e now a)

  select_pending-IsReadable :
      (rows : List (OutboxRow P)) (after : ℕ) (row : OutboxRow P)
      → All IsReadable rows
      → select_pending rows after ≡ some row
      → IsReadable row
  unfolding select_pending
  select_pending-IsReadable [] after row a h = cc
  select_pending-IsReadable (r ∷ rows) after row (p, a) h =
      elim (select_pending-cons after r rows row h) [
        | inl (same, q) ↦ rw (← same) p
        | inr (n, later) ↦ select_pending-IsReadable rows after row a later
      ]

transition_for-ok :
    (policy : RelayPolicy) (attempts : ℕ) (o : PublishOutcome)
    → (as_db_str (transition_for policy attempts (ok o)).status == bytes "PENDING") ≡ false
unfolding transition_for next_after_attempt as_db_str
transition_for-ok policy attempts o = refl

module _ {ℓ κ} {P : Type ℓ} {W : Type κ} where
  -- The broker accepts every message, or tells that it has it already.
  abbrev pub IsAccepting : Outside P W → Type (ℓ ⊔ κ)
  IsAccepting outside =
      (c : EventCoords) (p : P) (i : ℕ) (w : W)
      → (o : PublishOutcome) × ((outside.publish_event_value_with_id c p i w).0 ≡ ok o)

module _ {ℓ κ} {P : Type ℓ} {W : Type κ} (outside : Outside P W) (policy : RelayPolicy)
    (accepts : IsAccepting outside) where
  process_record-drains :
      (cursor : ℕ) (found : PendingOutbox P) (s : RelayState P W)
      → IsOrdered 0 s.table
      → IsPendingAbove cursor s.table
      → fetch_one_pending s.table cursor ≡ ok (some found)
      → (count_pending (process_record outside policy found s).table + 1 ≡ count_pending s.table)
        × IsPendingAbove found.id (process_record outside policy found s).table
  unfolding process_record
  process_record-drains cursor found s o a h =
      let (row, e, i) = fetch_one_pending-some s.table cursor found h in
      let message = message_id_for outside.event_id_text outside.parse_uuid row.id found.payload in
      let (outcome, q) = accepts found.destination found.payload message.0 s.world in
      rw i (
        apply_transition-drains 0 cursor s.table row _ _ _ o a e
          (rw q (transition_for-ok policy found.attempts outcome)))

  process_record-IsReadable :
      (found : PendingOutbox P) (s : RelayState P W)
      → All IsReadable s.table
      → All IsReadable (process_record outside policy found s).table
  unfolding process_record
  process_record-IsReadable found s a = apply_transition-IsReadable s.table found.id _ _ _ a

  run_turns-drains :
      (turns cursor : ℕ) (s : RelayState P W)
      → IsOrdered 0 s.table
      → IsPendingAbove cursor s.table
      → All IsReadable s.table
      → count_pending s.table ≤ turns
      → ((run_turns outside policy turns cursor s).0 ≡ ok tt)
        × (count_pending (run_turns outside policy turns cursor s).1.table ≡ 0)
  run_turns-drains zero cursor s o a r c =
      rw (run_turns-zero outside policy cursor s) (refl, ground arith)
  run_turns-drains (suc turns) cursor s o a r c =
      elim (Result-cases (fetch_one_pending s.table cursor)) [
        | inr (e, h) ↦
            let (row, x, selected, p) = fetch_one_pending-err s.table cursor e h in
            let (coords, q) = select_pending-IsReadable s.table cursor row r selected in
            ground (arith, p, q)
        | inl (none, h) ↦
            rw (run_turns-drained outside policy turns cursor s h)
              (refl, select_pending-none cursor s.table a (fetch_one_pending-none s.table cursor h))
        | inl (some found, h) ↦
            let t = process_record outside policy found s in
            let (less, above) = process_record-drains cursor found s o a h in
            rw (run_turns-step outside policy turns cursor s found h) (
              run_turns-drains turns found.id t (process_record-IsOrdered outside policy found s o)
                above (process_record-IsReadable found s r) (ground arith))
      ]

-- If the broker accepts every message, the subject of every row parses, the ids ascend from
-- above nil, and no more rows are pending than a pass may take, then the pass ends without an
-- error and leaves no row pending.
pub run_once_detailed-drains {ℓ κ} :
    {P : Type ℓ} {W : Type κ} (outside : Outside P W) (policy : RelayPolicy)
    → IsAccepting outside
    → (table : List (OutboxRow P)) (world : W) → IsOrdered 0 table
    → All IsReadable table
    → count_pending table ≤ max policy.max_messages 1
    → ((run_once_detailed outside policy table world).0 ≡ ok tt)
      × (count_pending (run_once_detailed outside policy table world).1.table ≡ 0)
unfolding run_once_detailed
run_once_detailed-drains outside policy accepts table world o r c =
    let s : RelayState _ _ = record { table = table; pass = default_pass; world = world } in
    run_turns-drains outside policy accepts (max policy.max_messages 1) 0 s o
      (IsOrdered-IsPendingAbove 0 0 table o (ground arith)) r c
