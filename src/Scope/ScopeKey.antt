-- ===== src/Scope/ScopeKey.antt =====
-- crates/br-core-scope/src/key.rs: the key of a scope, `service:capability`.
pub mod Laws
use br_rust_common.Base.{
  ℕ, Text, Bool, true, ◌&&◌, Result, ok, err, ◌>>=◌, ◌>>◌, ltb, length, List, [], ◌∷◌, split, take,
  drop, ◌+◌, if◌then◌else◌, Eq, ◌≡◌, ◌↔◌, ◌==◌, text_Eq, nat_eq, nat_eq_iff, arith,
}
use br_rust_common.Scope.Error.{KeyValidationError, too_long, malformed_segments}
use br_rust_common.Scope.ServiceKey.{ServiceKey, service_key_max_len, validate_segment}

abbrev pub scope_key_max_len : ℕ
scope_key_max_len = 128

-- `colon` is the position of the separator in `raw`.
pub record ScopeKey : Type 0 where
  pub raw : Text
  pub colon : ℕ

-- The three calls of `parts.next()`: exactly two parts.
new_of_parts : Text → List Text → Result ScopeKey KeyValidationError
new_of_parts value (service ∷ capability ∷ []) = do
  validate_segment service service_key_max_len
  validate_segment capability scope_key_max_len
  ok (record { raw = value; colon = length service })
new_of_parts value _ = err malformed_segments

unfoldable pub new : Text → Result ScopeKey KeyValidationError
unfolding new_of_parts
new value =
    if ltb scope_key_max_len (length value)
    then err (too_long scope_key_max_len (length value))
    else new_of_parts value (split b':' value)

-- `&self.raw[..self.colon]` and `&self.raw[self.colon + 1..]`.
unfoldable pub service_segment : ScopeKey → Text
service_segment k = take k.colon k.raw

unfoldable pub capability_segment : ScopeKey → Text
capability_segment k = drop (k.colon + 1) k.raw

unfoldable pub is_owned_by : ScopeKey → ServiceKey → Bool
unfolding service_segment
is_owned_by k service = service_segment k == service.text

-- The derived `PartialEq`: both fields.
abbrev pub scope_key_eq : ScopeKey → ScopeKey → Bool
scope_key_eq a b = a.raw == b.raw && nat_eq a.colon b.colon

pub scope_key_eq_iff : (a b : ScopeKey) → (scope_key_eq a b ≡ true) ↔ (a ≡ b)
scope_key_eq_iff a b = ground (arith, nat_eq_iff a.colon b.colon, text_Eq.beq_iff a.raw b.raw)

instance abbrev pub scope_key_Eq : Eq ScopeKey
scope_key_Eq = record { beq = scope_key_eq; beq_iff = scope_key_eq_iff }
