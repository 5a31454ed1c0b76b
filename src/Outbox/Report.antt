-- ===== src/Outbox/Report.antt =====
-- crates/br-util-nats-fabric/src/outbox/report.rs, and `schedule_after` and `update_health` of
-- outbox/driver.rs: what a pass of the relay counts, and what follows from it.
use br_rust_common.Base.{
  ℕ, ◌+◌, Bool, true, false, ◌&&◌, ◌||◌, Text, bytes, Option, none, some, Result, ok, err,
  if◌then◌else◌, leb, ltb,
}
use mathlib.Core.Option
use br_rust_common.Fabric.Error.{
  FabricError, publish, PublishErrorKind, PublishOutcome, is_duplicate,
}
use br_rust_common.Outbox.Retry.{min, retry_backoff}
use br_rust_common.Outbox.Status.{OutboxStatus, failed, Transition}

pub record RelayPolicy : Type 0 where
  pub max_attempts : ℕ
  pub max_messages : ℕ

abbrev pub default_policy : RelayPolicy
default_policy = record { max_attempts = 5; max_messages = 256 }

pub record RelayReport : Type 0 where
  pub picked : ℕ
  pub published : ℕ
  pub failed : ℕ
  pub retried : ℕ
  pub structural : ℕ
  pub min_retry_attempts : Option ℕ

pub record RelayPass : Type 0 where
  pub picked : ℕ
  pub published : ℕ
  pub duplicates : ℕ
  pub row_id_fallbacks : ℕ
  pub failed : ℕ
  pub retried : ℕ
  pub structural : ℕ
  pub min_retry_attempts : Option ℕ

abbrev pub default_pass : RelayPass
default_pass = record {
  picked = 0;
  published = 0;
  duplicates = 0;
  row_id_fallbacks = 0;
  failed = 0;
  retried = 0;
  structural = 0;
  min_retry_attempts = none;
}

abbrev pub to_report : RelayPass → RelayReport
to_report pass = record {
  picked = pass.picked;
  published = pass.published;
  failed = pass.failed;
  retried = pass.retried;
  structural = pass.structural;
  min_retry_attempts = pass.min_retry_attempts;
}

pub data FailureClass : Type 0 where
  structural_failure transient_failure : FailureClass

unfoldable pub classify_failure : FabricError → FailureClass
classify_failure (publish PublishErrorKind.no_stream detail) = structural_failure
classify_failure e = transient_failure

abbrev is_failed : OutboxStatus → Bool
is_failed failed = true
is_failed status = false

abbrev pub least : Option ℕ → ℕ → ℕ
least none attempts = attempts
least (some prev) attempts = min prev attempts

unfoldable pub classify_pass :
    RelayPass → Result PublishOutcome FabricError → Transition → Bool → RelayPass
classify_pass pass (ok outcome) transition is_structural =
    if is_duplicate outcome
    then record pass { published = pass.published + 1; duplicates = pass.duplicates + 1 }
    else record pass { published = pass.published + 1 }
classify_pass pass (err e) transition is_structural =
    if is_structural
    then record pass { structural = pass.structural + 1 }
    else if is_failed transition.status
    then record pass { failed = pass.failed + 1 }
    else record pass {
      retried = pass.retried + 1;
      min_retry_attempts = some (least pass.min_retry_attempts transition.attempts);
    }

unfoldable pub schedule_after : RelayPass → ℕ → Option ℕ
schedule_after pass cap =
    let saturated = leb cap pass.picked in
    let made_progress = ltb 0 pass.published || ltb 0 pass.failed in
    if saturated && made_progress then some 0 else Option.map retry_backoff pass.min_retry_attempts

pub data RelayHealth : Type 0 where
  healthy : RelayHealth
  degraded : Text → RelayHealth

unfoldable pub update_health : RelayPass → RelayHealth
update_health pass =
    if ltb 0 pass.structural then degraded (bytes "outbox.publish.no_stream") else healthy
