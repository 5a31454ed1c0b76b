-- ===== src/Scope/ServiceKey/Laws.antt =====
-- What `ServiceKey::new` accepts.
use br_rust_common.Base.{
  ℕ, Text, true, false, ok, length, all, ◌≡◌, ◌≢◌, ◌↔◌, ◌≤◌, arith, [], has_byte, ◌∷◌, refl,
}
use br_rust_common.Scope.ServiceKey.{
  ServiceKey, service_key_max_len, is_key_byte, validate_segment, new,
}

-- A segment of a key: not empty, at most `max` bytes, each of them in `[a-z0-9_]`.
pub record IsSegment (max : ℕ) (value : Text) : Type 0 where
  pub nonempty : value ≢ []
  pub short : length value ≤ max
  pub charset : all is_key_byte value ≡ true

pub validate_segment-eq-ok :
    (value : Text) (max : ℕ) → (validate_segment value max ≡ ok tt) ↔ IsSegment max value
unfolding validate_segment
validate_segment-eq-ok [] max = ground arith
validate_segment-eq-ok (c ∷ value) max = ground arith

-- A service key is accepted exactly when it is one segment of at most 64 bytes, and it keeps the text.
pub service_key-eq-ok_iff :
    (value : Text) (k : ServiceKey)
    → (new value ≡ ok k) ↔ (IsSegment service_key_max_len value × (k.text ≡ value))
unfolding new
service_key-eq-ok_iff value k = ground (arith, validate_segment-eq-ok value service_key_max_len)

-- A segment holds no byte outside its alphabet.
pub has_byte-eq-false :
    (sep : ℕ) (value : Text)
    → is_key_byte sep ≡ false
    → all is_key_byte value ≡ true
    → has_byte sep value ≡ false
has_byte-eq-false sep [] h k = refl
has_byte-eq-false sep (c ∷ value) h k = ground (arith, has_byte-eq-false sep value)
