-- ===== src/Outbox/Relay/Counts.antt =====
-- crates/br-util-nats-fabric/src/outbox/relay.rs: what the relay counts in a pass.
use br_rust_common.Base.{
  ℕ, zero, suc, ◌+◌, ◌≤◌, Bool, List, none, some, Result, ok, err, ◌≡◌, arith, Result-cases, inl,
  inr,
}
use br_rust_common.Fabric.Error.{FabricError, PublishOutcome, stored, duplicate}
use br_rust_common.Outbox.Retry.{max}
use br_rust_common.Outbox.Status.{Transition}
use br_rust_common.Outbox.Report.{RelayPolicy, RelayPass, default_pass, classify_pass}
use br_rust_common.Outbox.MessageId.{MessageIdSource, envelope, row}
use br_rust_common.Outbox.Table.{OutboxRow, PendingOutbox, fetch_one_pending}
use br_rust_common.Outbox.Relay.{
  RelayState, Outside, process_record, run_turns, run_once_detailed, count_picked,
}
use br_rust_common.Outbox.Relay.Turns.{
  run_turns-zero, run_turns-failed, run_turns-drained, run_turns-step,
}

pub IsBalanced : RelayPass → Type 0
IsBalanced pass =
    (pass.picked ≡ pass.published + pass.failed + pass.retried + pass.structural)
    × (pass.duplicates ≤ pass.published)
    × (pass.row_id_fallbacks ≤ pass.picked)

classify_pass-count :
    (pass : RelayPass) (source : MessageIdSource) (result : Result PublishOutcome FabricError)
    (transition : Transition) (structural : Bool)
    → IsBalanced pass
    → IsBalanced (classify_pass (count_picked pass source) result transition structural)
      × (classify_pass (count_picked pass source) result transition structural).picked
        ≡ pass.picked + 1
unfolding IsBalanced classify_pass
classify_pass-count pass envelope (ok (stored n)) t structural b = ground arith
classify_pass-count pass envelope (ok (duplicate n)) t structural b = ground arith
classify_pass-count pass envelope (err e) t structural b = ground arith
classify_pass-count pass row (ok (stored n)) t structural b = ground arith
classify_pass-count pass row (ok (duplicate n)) t structural b = ground arith
classify_pass-count pass row (err e) t structural b = ground arith

module _ {ℓ κ} {P : Type ℓ} {W : Type κ} (outside : Outside P W) (policy : RelayPolicy) where
  process_record-count :
      (found : PendingOutbox P) (s : RelayState P W)
      → IsBalanced s.pass
      → IsBalanced (process_record outside policy found s).pass
        × (process_record outside policy found s).pass.picked ≡ s.pass.picked + 1
  unfolding process_record
  process_record-count found s b = classify_pass-count _ _ _ _ _ b

  run_turns-count :
      (turns cursor : ℕ) (s : RelayState P W)
      → IsBalanced s.pass
      → IsBalanced (run_turns outside policy turns cursor s).1.pass
        × (run_turns outside policy turns cursor s).1.pass.picked ≤ s.pass.picked + turns
  run_turns-count zero cursor s b = rw (run_turns-zero outside policy cursor s) (b, ground arith)
  run_turns-count (suc turns) cursor s b = elim (Result-cases (fetch_one_pending s.table cursor)) [
    | inr (e, h) ↦ rw (run_turns-failed outside policy turns cursor s e h) (b, ground arith)
    | inl (none, h) ↦ rw (run_turns-drained outside policy turns cursor s h) (b, ground arith)
    | inl (some found, h) ↦
        let t = process_record outside policy found s in
        let (b', p) = process_record-count found s b in
        let (b'', q) = run_turns-count turns found.id t b' in
        rw (run_turns-step outside policy turns cursor s found h) (b'', ground arith)
  ]

-- In every pass, whatever the broker answers, each row picked is counted once as published,
-- failed, retried or structural; the duplicates are among the published, the fallbacks to the
-- row id among the picked, and the rows picked are at most the messages allowed (at least one).
pub run_once_detailed-count {ℓ κ} :
    {P : Type ℓ} {W : Type κ} (outside : Outside P W) (policy : RelayPolicy)
    (table : List (OutboxRow P)) (world : W)
    → IsBalanced (run_once_detailed outside policy table world).1.pass
      × (run_once_detailed outside policy table world).1.pass.picked ≤ max policy.max_messages 1
unfolding run_once_detailed IsBalanced
run_once_detailed-count outside policy table world =
    let s : RelayState _ _ = record { table = table; pass = default_pass; world = world } in
    let (b, p) = run_turns-count outside policy (max policy.max_messages 1) 0 s (ground arith) in
    (b, ground arith)
