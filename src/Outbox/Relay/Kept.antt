-- ===== src/Outbox/Relay/Kept.antt =====
-- What a pass leaves alone: the rows that are not pending, and of each row its id, its subject
-- and its payload.
use br_rust_common.Base.{ℕ, zero, suc, List, none, some, ok, ◌≡◌, Result-cases, inl, inr}
use br_rust_common.Outbox.Retry.{max}
use br_rust_common.Outbox.Report.{RelayPolicy, default_pass}
use br_rust_common.Outbox.Table.{OutboxRow, PendingOutbox, fetch_one_pending}
use br_rust_common.Outbox.Table.Fetch.{fetch_one_pending-some}
use br_rust_common.Outbox.Table.Laws.{
  IsOrdered, IsLaterTable, IsLaterTable-refl, IsLaterTable-trans, apply_transition-IsLaterTable,
  apply_transition-IsOrdered,
}
use br_rust_common.Outbox.Relay.{RelayState, Outside, process_record, run_turns, run_once_detailed}
use br_rust_common.Outbox.Relay.Turns.{
  run_turns-zero, run_turns-failed, run_turns-drained, run_turns-step,
}

module _ {ℓ κ} {P : Type ℓ} {W : Type κ} (outside : Outside P W) (policy : RelayPolicy) where
  pub process_record-IsOrdered :
      (found : PendingOutbox P) (s : RelayState P W)
      → IsOrdered 0 s.table
      → IsOrdered 0 (process_record outside policy found s).table
  unfolding process_record
  process_record-IsOrdered found s o = apply_transition-IsOrdered 0 found.id s.table _ _ _ o

  process_record-IsLaterTable :
      (cursor : ℕ) (found : PendingOutbox P) (s : RelayState P W)
      → IsOrdered 0 s.table
      → fetch_one_pending s.table cursor ≡ ok (some found)
      → IsLaterTable s.table (process_record outside policy found s).table
  unfolding process_record
  process_record-IsLaterTable cursor found s o h =
      let (row, e, i) = fetch_one_pending-some s.table cursor found h in
      rw i (apply_transition-IsLaterTable 0 cursor s.table row _ _ _ o e)

  run_turns-IsLaterTable :
      (turns cursor : ℕ) (s : RelayState P W)
      → IsOrdered 0 s.table
      → IsLaterTable s.table (run_turns outside policy turns cursor s).1.table
  run_turns-IsLaterTable zero cursor s o =
      rw (run_turns-zero outside policy cursor s) (IsLaterTable-refl s.table)
  run_turns-IsLaterTable (suc turns) cursor s o =
      elim (Result-cases (fetch_one_pending s.table cursor)) [
        | inr (e, h) ↦
            rw (run_turns-failed outside policy turns cursor s e h) (IsLaterTable-refl s.table)
        | inl (none, h) ↦
            rw (run_turns-drained outside policy turns cursor s h) (IsLaterTable-refl s.table)
        | inl (some found, h) ↦
            let t = process_record outside policy found s in
            rw (run_turns-step outside policy turns cursor s found h) (
              IsLaterTable-trans (process_record-IsLaterTable cursor found s o h)
                (run_turns-IsLaterTable turns found.id t (process_record-IsOrdered found s o)))
      ]

-- A pass, however it ends and whatever the broker answers, keeps the rows of the table, and
-- of each row the id, the subject and the payload; a row that was not pending it does not touch.
-- The ids of the table ascend, and none is nil.
pub run_once_detailed-IsLaterTable {ℓ κ} :
    {P : Type ℓ} {W : Type κ} (outside : Outside P W) (policy : RelayPolicy)
    (table : List (OutboxRow P)) (world : W)
    → IsOrdered 0 table
    → IsLaterTable table (run_once_detailed outside policy table world).1.table
unfolding run_once_detailed
run_once_detailed-IsLaterTable outside policy table world o =
    let s : RelayState _ _ = record { table = table; pass = default_pass; world = world } in
    run_turns-IsLaterTable outside policy (max policy.max_messages 1) 0 s o
