-- ===== src/Outbox/Relay/Turns.antt =====
-- One turn of the relay's loop, by what the query for a pending row gives.
use br_rust_common.Base.{ℕ, suc, none, some, ok, err, ◌≡◌, refl}
use br_rust_common.Outbox.Report.{RelayPolicy}
use br_rust_common.Outbox.Table.{PendingOutbox, OutboxStoreError, fetch_one_pending}
use br_rust_common.Outbox.Relay.{RelayState, Outside, process_record, process_one, run_turns}

module _ {ℓ κ} {P : Type ℓ} {W : Type κ} (outside : Outside P W) (policy : RelayPolicy) where
  pub run_turns-zero :
      (cursor : ℕ) (s : RelayState P W) → run_turns outside policy 0 cursor s ≡ (ok tt, s)
  unfolding run_turns
  run_turns-zero cursor s = refl

  pub run_turns-failed :
      (turns cursor : ℕ) (s : RelayState P W) (e : OutboxStoreError)
      → fetch_one_pending s.table cursor ≡ err e
      → run_turns outside policy (suc turns) cursor s ≡ (err e, s)
  unfolding run_turns process_one
  run_turns-failed turns cursor s e h = rw (run_turns, h, process_one, h) refl

  pub run_turns-drained :
      (turns cursor : ℕ) (s : RelayState P W)
      → fetch_one_pending s.table cursor ≡ ok none
      → run_turns outside policy (suc turns) cursor s ≡ (ok tt, s)
  unfolding run_turns process_one
  run_turns-drained turns cursor s h = rw (run_turns, h, process_one, h) refl

  pub run_turns-step :
      (turns cursor : ℕ) (s : RelayState P W) (found : PendingOutbox P)
      → fetch_one_pending s.table cursor ≡ ok (some found)
      → run_turns outside policy (suc turns) cursor s
        ≡ run_turns outside policy turns found.id (process_record outside policy found s)
  unfolding run_turns process_one
  run_turns-step turns cursor s found h = rw (run_turns, h, process_one, h) refl
