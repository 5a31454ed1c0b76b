-- ===== src/Handshake/Tests.antt =====
-- Runs of the handshake on small inputs.
use br_rust_common.Base.{
  true, false, Text, bytes, [], ◌∷◌, Option, none, some, ok, err, text_Eq, if◌then◌else◌, is_empty,
  ◌≡◌, refl,
}
use br_rust_common.Fabric.Error.{connect}
use br_rust_common.Handshake.Readiness.{ready, not_ready, is_ready}
use br_rust_common.Handshake.Declare.{
  accepted, Turn, Progress, declare_loop, declare_scopes, resolve_match, ScopeDeclarationOutcome,
  rejected,
}
use br_rust_common.Handshake.Declare.Laws.{
  Agrees, declare_scopes-Agrees, declare_loop-accepted, silent, garbled,
}

-- A payload that is not empty is its own reason.
abbrev decode_reason : Text → Option Text
decode_reason payload = if is_empty payload then none else some payload

abbrev reason : Text → Text
reason r = r

abbrev silent_turn : Turn
silent_turn = record { published = err (connect (bytes "refused")); awaited = ok none }

abbrev garbled_turn : Turn
garbled_turn = record {
  published = ok tt;
  awaited = ok (some (record { subject = bytes "no"; payload = [] }));
}

abbrev accepting_turn : Turn
accepting_turn = record {
  published = ok tt;
  awaited = ok (some (record { subject = bytes "yes"; payload = [] }));
}

abbrev rejecting_turn : Turn
rejecting_turn = record {
  published = ok tt;
  awaited = ok (some (record { subject = bytes "no"; payload = bytes "taken" }));
}

declare_scopes-Agrees_example :
    is_ready
      (declare_scopes decode_reason reason
        (bytes "yes")
        true
        (ok tt)
        (not_ready (bytes "boot"))
        (silent_turn ∷ rejecting_turn ∷ accepting_turn ∷ [])).readiness
    ≡ false
unfolding Agrees declare_scopes declare_loop resolve_match
    br_rust_common.Handshake.Declare.outcome_is_ready
declare_scopes-Agrees_example =
    declare_scopes-Agrees decode_reason reason (bytes "yes") true (ok tt) (not_ready (bytes "boot"))
      (silent_turn ∷ rejecting_turn ∷ accepting_turn ∷ [])

declare_loop-accepted_example :
    declare_loop decode_reason reason
      (bytes "yes")
      (not_ready (bytes "boot"))
      0
      (silent_turn ∷ garbled_turn ∷ accepting_turn ∷ rejecting_turn ∷ [])
    ≡ record { answer = some (ok accepted); readiness = ready; publishes = 3 }
declare_loop-accepted_example =
    declare_loop-accepted decode_reason reason (bytes "yes") (not_ready (bytes "boot")) 0
      (silent_turn ∷ garbled_turn ∷ []) (rejecting_turn ∷ []) accepting_turn
      (record { subject = bytes "yes"; payload = [] })
      (
        silent silent_turn refl,
        (garbled garbled_turn (record { subject = bytes "no"; payload = [] }) refl refl refl, tt),
      )
      refl refl
