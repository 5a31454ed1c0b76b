-- ===== src/Fabric/Subject.antt =====
-- crates/br-util-nats-fabric/src/coords: a subject is rendered from coordinates and parsed again.
pub mod Laws
use br_rust_common.Base.{
  ℕ, Bool, Text, bytes, not, ◌||◌, List, [], ◌∷◌, ◌++◌, ◌==◌, text_Eq, nat_eq, Option, none, some,
  Result, ok, err, ◌>>=◌, map_err, split, if◌then◌else◌,
}
use br_rust_common.Coords
use br_rust_common.Coords.{CoordError, Coord, bc, aggregate, fact, CommandCoords, EventCoords}
use br_rust_common.Fabric.Decimal.{decimal, parse_u8}

abbrev pub integration_prefix : Text
integration_prefix = bytes "integration"

abbrev pub cmd_token : Text
cmd_token = bytes "cmd"

abbrev pub evt_token : Text
evt_token = bytes "evt"

-- The `format!` of both kinds of coordinates.
unfoldable pub subject : Text → Text → Text → Text → ℕ → Text
subject token a b c version =
    integration_prefix
    ++ b'.' ∷ (token ++ b'.' ∷ (a ++ b'.' ∷ (b ++ b'.' ∷ (c ++ b'.' ∷ b'v' ∷ decimal version))))

unfoldable pub command_subject : CommandCoords → Text
command_subject coords =
    subject cmd_token coords.receiver.text coords.aggregate.text coords.verb.text coords.version

unfoldable pub event_subject : EventCoords → Text
event_subject coords =
    subject evt_token coords.producer.text coords.aggregate.text coords.fact.text coords.version

pub data EventSubjectParseError : Type 0 where
  shape : (subject : Text) → EventSubjectParseError
  version : (segment : Text) → EventSubjectParseError
  coord : CoordError → EventSubjectParseError

-- `strip_prefix('v').and_then(|n| n.parse::<u8>().ok())`.
unfoldable pub parse_version : Text → Option ℕ
parse_version [] = none
parse_version (c ∷ n) = if nat_eq c b'v' then parse_u8 n else none

or_version : Text → Option ℕ → Result ℕ EventSubjectParseError
or_version segment none = err (version segment)
or_version segment (some n) = ok n

-- The six segments are matched as a slice.
parse_parts : Text → List Text → Result EventCoords EventSubjectParseError
unfolding or_version
parse_parts s (p ∷ t ∷ a ∷ b ∷ c ∷ v ∷ []) =
    if not (p == integration_prefix) || not (t == evt_token) then err (shape s) else do
      n ← or_version v (parse_version v)
      producer ← map_err coord (Coords.new bc a)
      agg ← map_err coord (Coords.new aggregate b)
      f ← map_err coord (Coords.new fact c)
      ok (record { producer = producer; aggregate = agg; fact = f; version = n })
parse_parts s _ = err (shape s)

unfoldable pub parse_event_subject : Text → Result EventCoords EventSubjectParseError
unfolding parse_parts
parse_event_subject s = parse_parts s (split b'.' s)
