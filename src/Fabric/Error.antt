-- ===== src/Fabric/Error.antt =====
-- crates/br-util-nats-fabric/src/error.rs and fabric/outcome.rs: the errors of the fabric and
-- the acknowledgements of a publish. `serde_json::Error` is its message.
use br_rust_common.Base.{ℕ, Bool, true, false, Text, List}
use br_rust_common.Coords.{CoordError}
use br_rust_common.Fabric.Kv.Key.{KvKeyError}

pub data PublishErrorKind : Type 0 where
  no_stream timeout other : PublishErrorKind

pub data ConsumeErrorKind : Type 0 where
  no_stream no_consumer consumer_gone other no_delivery_info heartbeat_missed no_responders :
      ConsumeErrorKind

pub data FabricError : Type 0 where
  connect : Text → FabricError
  coord : CoordError → FabricError
  kv_key : KvKeyError → FabricError
  publish : PublishErrorKind → Text → FabricError
  consume : ConsumeErrorKind → Text → FabricError
  filter_mismatch : Text → Text → Text → List Text → FabricError
  subject_not_covered : Text → Text → List Text → FabricError
  decode : Text → Text → FabricError
  revision_conflict : Text → ℕ → FabricError
  key_already_exists : Text → FabricError
  kv : Text → FabricError
  serialization : Text → FabricError

pub data PublishOutcome : Type 0 where
  stored duplicate : ℕ → PublishOutcome

abbrev pub sequence : PublishOutcome → ℕ
sequence (stored n) = n
sequence (duplicate n) = n

abbrev pub is_duplicate : PublishOutcome → Bool
is_duplicate (stored n) = false
is_duplicate (duplicate n) = true
