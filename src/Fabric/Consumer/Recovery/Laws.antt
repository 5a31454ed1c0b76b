-- ===== src/Fabric/Consumer/Recovery/Laws.antt =====
-- The errors that a recovery forgives, and those it does not.
use br_rust_common.Base.{
  ◌+◌, Bool, true, false, Text, List, [], ◌∷◌, map, any, length, Result, ok, err, All,
  if◌then◌else◌, ltb, not, ◌&&◌, ◌≡◌, arith,
}
use br_rust_common.Fabric.Error.{FabricError, consume, ConsumeErrorKind}
use br_rust_common.Fabric.Consumer.Backoff.{next_delay}
use br_rust_common.Fabric.Consumer.Recovery.{
  Recovery, RecoverEnd, recovered, gave_up, waiting, recover, charge, back_off, should_recover,
  counts_against_budget,
}

abbrev pub has_given_up : RecoverEnd → Bool
has_given_up recovered = false
has_given_up (gave_up e) = true
has_given_up waiting = false

abbrev pub is_waiting : RecoverEnd → Bool
is_waiting recovered = false
is_waiting (gave_up e) = false
is_waiting waiting = true

abbrev pub other_error : Text → FabricError
other_error detail = consume ConsumeErrorKind.other detail

abbrev pub failed_rebinds : List Text → List (Result (Unit {0}) FabricError)
failed_rebinds details = map (λ d. err (other_error d)) details

-- If the stream fails and every call of `rebind` fails, each time with an error of the kind
-- `Other`, the recovery gives up exactly when these errors and those counted before are more
-- than ten, and otherwise waits for the next call.
pub recover-Other :
    (details : List Text) (r : Recovery) (detail : Text)
    → (has_given_up (recover (failed_rebinds details) r (other_error detail)).0
        ≡ ltb 10 (r.other_failures + 1 + length details))
      × (is_waiting (recover (failed_rebinds details) r (other_error detail)).0
          ≡ not (ltb 10 (r.other_failures + 1 + length details)))
unfolding recover should_recover counts_against_budget next_delay
recover-Other [] r detail = (ground arith, ground arith)
recover-Other (d ∷ details) r detail =
    let (given_up, waits) = recover-Other details (back_off (charge r (other_error detail))) d in
    (ground (arith, given_up, waits), ground (arith, given_up, waits))

abbrev pub is_ok : Result (Unit {0}) FabricError → Bool
is_ok (ok u) = true
is_ok (err e) = false

abbrev pub is_forgiven : FabricError → Bool
is_forgiven e = should_recover e && not (counts_against_budget e)

abbrev pub IsForgiven : Result (Unit {0}) FabricError → Type 0
IsForgiven (ok u) = Unit
IsForgiven (err e) = is_forgiven e ≡ true

-- Errors that may be recovered from and are not of the kind `Other` never make a recovery give
-- up, however many they are: it ends with the first call of `rebind` that succeeds. The count of
-- the other failures stays.
pub recover-forgiven :
    (rebinds : List (Result (Unit {0}) FabricError)) (r : Recovery) (e : FabricError)
    → is_forgiven e ≡ true
    → All IsForgiven rebinds
    → ((recover rebinds r e).0 ≡ (if any is_ok rebinds then recovered else waiting))
      × ((recover rebinds r e).1.other_failures ≡ r.other_failures)
unfolding recover next_delay
recover-forgiven [] r e h a = ground arith
recover-forgiven (ok u ∷ rebinds) r e h a = ground arith
recover-forgiven (err f ∷ rebinds) r e h (b, a) =
    ground (arith, recover-forgiven rebinds (back_off (charge r e)) f b a)
