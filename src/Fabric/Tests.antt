-- ===== src/Fabric/Tests.antt =====
-- Runs of crates/br-core-integration/src/coords and crates/br-util-nats-fabric on small inputs.
use br_rust_common.Base.{
  ℕ, true, not, Text, bytes, List, [], ◌∷◌, ◌++◌, Result, ok, err, split, nat_Eq, ltb, ◌*◌, ◌^◌,
  ◌+◌, All, ◌==◌, text_Eq, ◌≡◌, ◌≢◌, ◌↔◌, refl, arith, if◌then◌else◌,
}
use br_rust_common.Coords.{EventCoords, CommandCoords}
use br_rust_common.Coords.Laws.{IsEventCoords, IsCommandCoords}
use br_rust_common.Fabric.Subject.{parse_event_subject, event_subject}
use br_rust_common.Fabric.Subject.Laws.{parse_event_subject-event_subject}
use br_rust_common.Fabric.Coverage.{pattern_covers}
use br_rust_common.Fabric.Coverage.Laws.{Covers, pattern_covers_iff}
use br_rust_common.Fabric.Kv.Key.{KvKey, kv_key_Eq, KvPrefix}
use br_rust_common.Fabric.Kv.Reconcile.{get, reconcile}
use br_rust_common.Fabric.Kv.Reconcile.Laws.{apply_all, apply_all-reconcile}
use br_rust_common.Fabric.Error.{FabricError, consume, ConsumeErrorKind}
use br_rust_common.Fabric.Consumer.Backoff
use br_rust_common.Fabric.Consumer.Backoff.{after, next_delay, next_delay-after}
use br_rust_common.Fabric.Consumer.Recovery
use br_rust_common.Fabric.Consumer.Recovery.{
  RecoverEnd, recover, recovered, should_recover, counts_against_budget,
}
use br_rust_common.Fabric.Consumer.Recovery.Laws.{
  has_given_up, is_waiting, failed_rebinds, other_error, recover-Other,
}
use br_rust_common.Fabric.Consumer.Run.{
  Calls, Frame, SourceNext, failed, delivered, closed, run_inner, ack,
}
use br_rust_common.Fabric.Consumer.Run.Laws.{
  delivered_frames, acked_frames, IsTermed, run_inner-acked,
}
use br_rust_common.Outbox.Retry.{min}

abbrev pub created : EventCoords
created = record {
  producer = record { text = bytes "identity" };
  aggregate = record { text = bytes "user" };
  fact = record { text = bytes "created" };
  version = 1;
}

abbrev create : CommandCoords
create = record {
  receiver = record { text = bytes "identity" };
  aggregate = record { text = bytes "user" };
  verb = record { text = bytes "create" };
  version = 1;
}

created-IsEventCoords : IsEventCoords created
created-IsEventCoords = record {
  producer_ok = record { nonempty = λ e. cc; charset = refl };
  aggregate_ok = record { nonempty = λ e. cc; charset = refl };
  fact_ok = record { nonempty = λ e. cc; charset = refl };
  version_ok = omega arith;
}

create-IsCommandCoords : IsCommandCoords create
create-IsCommandCoords = record {
  receiver_ok = record { nonempty = λ e. cc; charset = refl };
  aggregate_ok = record { nonempty = λ e. cc; charset = refl };
  verb_ok = record { nonempty = λ e. cc; charset = refl };
  version_ok = omega arith;
}

pub parse_created : parse_event_subject (event_subject created) ≡ ok created
parse_created = parse_event_subject-event_subject created created-IsEventCoords

parse_event_subject-event_subject_example : parse_event_subject (event_subject created) ≡ ok created
parse_event_subject-event_subject_example =
    parse_event_subject-event_subject created created-IsEventCoords

pattern_covers_iff_example : (pattern_covers (bytes "a.*.>") (bytes "a.b.c.d") ≡ true) ↔ (
    (bytes "a.*.>" ≢ [])
    × (bytes "a.b.c.d" ≢ [])
    × Covers (split b'.' (bytes "a.*.>")) (split b'.' (bytes "a.b.c.d")))
pattern_covers_iff_example = pattern_covers_iff (bytes "a.*.>") (bytes "a.b.c.d")

abbrev users : KvPrefix
users = record { text = bytes "user." }

abbrev user_1 : KvKey
user_1 = record { text = bytes "user.1" }

-- Key 1 is to change, key 2 to go and key 3 to come.
abbrev desired : List (ℕ × ℕ)
desired = (1, 10) ∷ (3, 30) ∷ []

abbrev observed : List (ℕ × ℕ)
observed = (1, 11) ∷ (2, 20) ∷ []

apply_all-reconcile_example :
    apply_all (get observed) (reconcile desired observed) 2 ≡ get desired 2
apply_all-reconcile_example = apply_all-reconcile desired observed 2 refl

next_delay-after_example : (next_delay (after 3 (Backoff.new 100 1000))).0 ≡ min (100 * 2 ^ 3) 1000
next_delay-after_example = next_delay-after 3 100 1000 (omega arith) (omega arith)

abbrev three_errors : RecoverEnd
three_errors =
    (recover (failed_rebinds (bytes "b" ∷ bytes "c" ∷ [])) (Recovery.new Backoff.production)
      (other_error (bytes "a"))).0

recover-Other_example :
    (has_given_up three_errors ≡ ltb 10 (0 + 1 + 2))
    × (is_waiting three_errors ≡ not (ltb 10 (0 + 1 + 2)))
recover-Other_example =
    recover-Other (bytes "b" ∷ bytes "c" ∷ []) (Recovery.new Backoff.production) (bytes "a")

abbrev missed : FabricError
missed = consume ConsumeErrorKind.heartbeat_missed (bytes "m")

-- A decoder that knows one payload, and a handler that accepts.
decode_a : Text → Result ℕ Text
decode_a payload = if payload == bytes "a" then ok 1 else err (bytes "unknown")

abbrev calls : Calls ℕ ℕ ℕ
calls = record {
  ack_ack = 1;
  ack_nak = λ _. 2;
  ack_term = 3;
  from_slice = decode_a;
  handler = λ subject envelope n. (ack, n + envelope);
}

abbrev good : Frame
good = record { subject = bytes "s"; payload = bytes "a" }

abbrev bad : Frame
bad = record { subject = bytes "s"; payload = bytes "b" }

abbrev nexts : List SourceNext
nexts = delivered good ∷ failed missed ∷ delivered bad ∷ closed ∷ []

run_inner-acked_example :
    (rest : List Frame) × (delivered_frames nexts
      ≡ acked_frames (run_inner calls nexts (ok tt ∷ []) Backoff.production 0).1 ++ rest)
    × All (IsTermed calls) (run_inner calls nexts (ok tt ∷ []) Backoff.production 0).1
run_inner-acked_example = run_inner-acked calls nexts (ok tt ∷ []) Backoff.production 0
