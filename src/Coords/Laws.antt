-- ===== src/Coords/Laws.antt =====
-- Which texts are coordinates.
use br_rust_common.Base.{
  ℕ, ◌<◌, Text, true, false, not, [], ◌∷◌, any, all, has_byte, ok, ◌≡◌, ◌≢◌, ◌↔◌, arith, refl,
  nat_eq_iff,
}
use br_rust_common.Coords.{
  Role, is_segment_byte, validate_segment, Coord, new, CommandCoords, EventCoords,
}

pub record IsToken (value : Text) : Type 0 where
  pub nonempty : value ≢ []
  pub charset : all is_segment_byte value ≡ true

any-not :
    (value : Text) → any (λ c. not (is_segment_byte c)) value ≡ not (all is_segment_byte value)
any-not [] = refl
any-not (c ∷ value) = ground (arith, any-not value)

pub validate_segment-eq-ok_iff :
    (role : Role) (value : Text) → (validate_segment role value ≡ ok tt) ↔ IsToken value
unfolding validate_segment
validate_segment-eq-ok_iff role [] = ground arith
validate_segment-eq-ok_iff role (c ∷ value) = ground (arith, any-not (c ∷ value))

-- A coordinate is accepted exactly when its text is not empty and each byte is in
-- `[A-Za-z0-9_-]`, whatever its role, and it keeps the text.
pub coord-eq-ok_iff :
    (role : Role) (value : Text) (c : Coord role)
    → (new role value ≡ ok c) ↔ (IsToken value × (c.text ≡ value))
unfolding new
coord-eq-ok_iff role value c = ground (arith, validate_segment-eq-ok_iff role value)

pub new_complete : {role : Role} (c : Coord role) → IsToken c.text → new role c.text ≡ ok c
new_complete {role} c t = (coord-eq-ok_iff role c.text c).1 (t, refl)

-- A coordinate holds no byte outside its alphabet, such as a dot.
pub has_byte-eq-false :
    (sep : ℕ) (value : Text)
    → is_segment_byte sep ≡ false
    → all is_segment_byte value ≡ true
    → has_byte sep value ≡ false
has_byte-eq-false sep [] h k = refl
has_byte-eq-false sep (c ∷ value) h k =
    ground (arith, has_byte-eq-false sep value, nat_eq_iff c sep)

pub record IsEventCoords (c : EventCoords) : Type 0 where
  pub producer_ok : IsToken c.producer.text
  pub aggregate_ok : IsToken c.aggregate.text
  pub fact_ok : IsToken c.fact.text
  pub version_ok : c.version < 256

pub record IsCommandCoords (c : CommandCoords) : Type 0 where
  pub receiver_ok : IsToken c.receiver.text
  pub aggregate_ok : IsToken c.aggregate.text
  pub verb_ok : IsToken c.verb.text
  pub version_ok : c.version < 256
