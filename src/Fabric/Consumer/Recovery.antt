-- ===== src/Fabric/Consumer/Recovery.antt =====
-- crates/br-util-nats-fabric/src/consumer/recovery.rs: re-binding after an error of the stream.
-- The results of the calls of `rebind` are a list, in their order; the tasks waits when it ends.
pub mod Laws
use br_rust_common.Base.{
  ℕ, ◌+◌, Bool, true, false, ◌&&◌, Text, List, [], ◌∷◌, Result, ok, err, if◌then◌else◌, ltb,
}
use br_rust_common.Fabric.Error.{FabricError, consume, ConsumeErrorKind}
use br_rust_common.Fabric.Consumer.Backoff.{Backoff, reset, next_delay}

abbrev pub other_failure_budget : ℕ
other_failure_budget = 10

pub record Recovery : Type 0 where
  pub backoff : Backoff
  pub other_failures : ℕ

abbrev pub new : Backoff → Recovery
new b = record { backoff = b; other_failures = 0 }

abbrev pub note_delivery : Recovery → Recovery
note_delivery r = record { backoff = reset r.backoff; other_failures = 0 }

unfoldable pub should_recover : FabricError → Bool
should_recover (consume ConsumeErrorKind.heartbeat_missed detail) = true
should_recover (consume ConsumeErrorKind.no_responders detail) = true
should_recover (consume ConsumeErrorKind.other detail) = true
should_recover e = false

unfoldable pub counts_against_budget : FabricError → Bool
counts_against_budget (consume ConsumeErrorKind.other detail) = true
counts_against_budget e = false

pub data RecoverEnd : Type 0 where
  recovered : RecoverEnd
  gave_up : FabricError → RecoverEnd
  waiting : RecoverEnd

abbrev pub charge : Recovery → FabricError → Recovery
charge r e =
    if counts_against_budget e then record r { other_failures = r.other_failures + 1 } else r

abbrev pub back_off : Recovery → Recovery
back_off r = record r { backoff = (next_delay r.backoff).1 }

abbrev pub over_budget : Recovery → FabricError → Bool
over_budget r e = counts_against_budget e && ltb other_failure_budget (charge r e).other_failures

-- The `loop`; it gives what the loop ends with, the recovery after it and the results left.
unfoldable pub recover :
    List (Result (Unit {0}) FabricError)
    → Recovery
    → FabricError
    → RecoverEnd × Recovery × List (Result (Unit {0}) FabricError)
recover [] r current =
    if over_budget r current
    then (gave_up current, charge r current, [])
    else (waiting, back_off (charge r current), [])
recover (ok u ∷ rebinds) r current =
    if over_budget r current
    then (gave_up current, charge r current, ok u ∷ rebinds)
    else (recovered, back_off (charge r current), rebinds)
recover (err e ∷ rebinds) r current =
    let rest = recover rebinds (back_off (charge r current)) e in
    if over_budget r current
    then (gave_up current, charge r current, err e ∷ rebinds)
    else if should_recover e
    then rest
    else (gave_up e, back_off (charge r current), rebinds)
