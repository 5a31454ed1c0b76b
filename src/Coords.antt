-- ===== src/Coords.antt =====
-- crates/br-core-integration/src/coords: the coordinates of an integration message.
pub mod Laws
use br_rust_common.Base.{
  ℕ, Bool, Text, bytes, not, ◌||◌, any, is_empty, is_ascii_alphanumeric, nat_eq, Result, ok, err,
  ◌>>=◌, ◌>>◌, if◌then◌else◌,
}

-- The literals that the macro `coord_newtype` is called with.
pub data Role : Type 0 where
  bc aggregate verb fact : Role

pub data CoordError : Type 0 where
  empty : Role → CoordError
  invalid_char : Role → (value : Text) → CoordError

abbrev pub is_segment_byte : ℕ → Bool
is_segment_byte c = is_ascii_alphanumeric c || nat_eq c b'-' || nat_eq c b'_'

unfoldable pub validate_segment : Role → Text → Result (Unit {0}) CoordError
validate_segment role value =
    if is_empty value
    then err (empty role)
    else if any (λ c. not (is_segment_byte c)) value
    then err (invalid_char role value)
    else ok tt

-- One newtype for each role: `Bc`, `Aggregate`, `Verb`, `PastFact`.
pub record Coord (role : Role) : Type 0 where
  pub text : Text

unfoldable pub new : (role : Role) → Text → Result (Coord role) CoordError
new role value = do validate_segment role value; ok (record { text = value })

-- `version` is a `u8`.
pub record CommandCoords : Type 0 where
  pub receiver : Coord bc
  pub aggregate : Coord aggregate
  pub verb : Coord verb
  pub version : ℕ

pub record EventCoords : Type 0 where
  pub producer : Coord bc
  pub aggregate : Coord aggregate
  pub fact : Coord fact
  pub version : ℕ
