-- ===== src/Scope/ServiceKey.antt =====
-- crates/br-core-scope/src/service.rs: the key of a service, one segment of `[a-z0-9_]`.
pub mod Laws
use br_rust_common.Base.{
  ℕ, Text, Bool, true, not, ◌||◌, Result, ok, err, ◌>>=◌, ◌>>◌, is_empty, ltb, nat_eq, length, all,
  is_ascii_lowercase, is_ascii_digit, if◌then◌else◌, Eq, ◌≡◌, ◌↔◌, ap, ◌==◌, text_Eq,
}
use br_rust_common.Scope.Error.{KeyValidationError, empty, too_long, invalid_charset}

abbrev pub service_key_max_len : ℕ
service_key_max_len = 64

-- A tuple struct of one private field, written only by `new`.
pub record ServiceKey : Type 0 where
  pub text : Text

abbrev pub is_key_byte : ℕ → Bool
is_key_byte b = is_ascii_lowercase b || is_ascii_digit b || nat_eq b b'_'

unfoldable pub validate_segment : Text → ℕ → Result (Unit {0}) KeyValidationError
validate_segment value max_len =
    if is_empty value
    then err empty
    else if ltb max_len (length value)
    then err (too_long max_len (length value))
    else if not (all is_key_byte value)
    then err invalid_charset
    else ok tt

unfoldable pub new : Text → Result ServiceKey KeyValidationError
new value = do validate_segment value service_key_max_len; ok (record { text = value })

abbrev pub as_str : ServiceKey → Text
as_str k = k.text

pub service_key_eq_iff : (a b : ServiceKey) → ((a.text == b.text) ≡ true) ↔ (a ≡ b)
service_key_eq_iff a b = (
  λ h. ap (λ (t : Text). record { text = t }) ((text_Eq.beq_iff a.text b.text).0 h),
  λ p. (text_Eq.beq_iff a.text b.text).1 (ap (λ (k : ServiceKey). k.text) p),
)

instance abbrev pub service_key_Eq : Eq ServiceKey
service_key_Eq = record { beq = λ a b. a.text == b.text; beq_iff = service_key_eq_iff }
