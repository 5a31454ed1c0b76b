-- ===== src/Outbox/Tests.antt =====
-- Runs of the outbox on small inputs.
use br_rust_common.Base.{
  ℕ, Text, bytes, List, [], ◌∷◌, none, ok, ◌+◌, ◌-◌, ◌*◌, ◌^◌, ◌≤◌, ◌≡◌, refl, arith,
}
use br_rust_common.Fabric.Error.{stored}
use br_rust_common.Fabric.Subject.{event_subject}
use br_rust_common.Fabric.Tests.{created, parse_created}
use br_rust_common.Outbox.Retry.{min, max, retry_backoff, retry_backoff-eq}
use br_rust_common.Outbox.Status.{OutboxStatus, pending, published, as_db_str}
use br_rust_common.Outbox.Report.{default_policy}
use br_rust_common.Outbox.Table.{OutboxRow, pos}
use br_rust_common.Outbox.Table.Laws.{IsOrdered, IsLaterTable}
use br_rust_common.Outbox.Table.Pending.{count_pending}
use br_rust_common.Outbox.Relay.{Outside, run_once_detailed}
use br_rust_common.Outbox.Relay.Counts.{IsBalanced, run_once_detailed-count}
use br_rust_common.Outbox.Relay.Kept.{run_once_detailed-IsLaterTable}
use br_rust_common.Outbox.Relay.Drain.{IsAccepting, run_once_detailed-drains}

retry_backoff-eq_example : retry_backoff 4 ≡ min (500 * 2 ^ (4 - 1)) 30000
retry_backoff-eq_example = retry_backoff-eq 4

-- A broker that counts the messages it is given and stores each.
abbrev broker : Outside Text ℕ
broker = record {
  publish_event_value_with_id = λ coords payload id n. (ok (stored n), n + 1);
  now = λ n. n;
  event_id_text = λ payload. none;
  parse_uuid = λ text. none;
  display = λ e. bytes "e";
}

broker-IsAccepting : IsAccepting broker
broker-IsAccepting c p i w = (stored w, refl)

abbrev row_of : ℕ → OutboxStatus → OutboxRow Text
row_of id status = record {
  id = id;
  subject = event_subject created;
  payload = bytes "{}";
  status = as_db_str status;
  attempts = pos 0;
  last_error = none;
  published_at = none;
}

abbrev rows : List (OutboxRow Text)
rows = row_of 4 pending ∷ row_of 7 published ∷ row_of 9 pending ∷ []

rows-IsOrdered : IsOrdered 0 rows
rows-IsOrdered = (omega arith, (omega arith, (omega arith, tt)))

run_once_detailed-count_example :
    IsBalanced (run_once_detailed broker default_policy rows 0).1.pass
    × (run_once_detailed broker default_policy rows 0).1.pass.picked
      ≤ max default_policy.max_messages 1
run_once_detailed-count_example = run_once_detailed-count broker default_policy rows 0

run_once_detailed-IsLaterTable_example :
    IsLaterTable rows (run_once_detailed broker default_policy rows 0).1.table
run_once_detailed-IsLaterTable_example =
    run_once_detailed-IsLaterTable broker default_policy rows 0 rows-IsOrdered

run_once_detailed-drains_example :
    ((run_once_detailed broker default_policy rows 0).0 ≡ ok tt)
    × (count_pending (run_once_detailed broker default_policy rows 0).1.table ≡ 0)
unfolding as_db_str
run_once_detailed-drains_example =
    run_once_detailed-drains broker default_policy broker-IsAccepting rows 0 rows-IsOrdered
      ((created, parse_created), ((created, parse_created), ((created, parse_created), tt)))
      (omega arith)
