-- ===== src/Auth/Bearer.antt =====
-- crates/br-core-auth/src/bearer_token.rs: the key under which a bearer token is kept. SHA-256 is
-- an argument, which gives the bytes of the digest.
use br_rust_common.Base.{
  ℕ, Text, List, [], ◌∷◌, length, ltb, ◌+◌, ◌-◌, ◌*◌, ◌/◌, ◌%◌, ◌≡◌, ◌<◌, refl, arith, All,
  if◌then◌else◌, ap, ◌↔◌,
}

pub record BearerTokenEntry : Type 0 where
  pub email : Text
  pub token_id : ℕ

unfoldable pub hex_digit : ℕ → ℕ
hex_digit n = if ltb n 10 then b'0' + n else b'a' + (n - 10)

-- `write!(&mut out, "{byte:02x}")` for each byte.
unfoldable pub hex_bytes : List ℕ → Text
hex_bytes [] = []
hex_bytes (byte ∷ digest) = hex_digit (byte / 16) ∷ hex_digit (byte % 16) ∷ hex_bytes digest

unfoldable pub bearer_token_key : (Text → List ℕ) → Text → Text
bearer_token_key sha256 plaintext = hex_bytes (sha256 plaintext)

hex_digit_injective : (m n : ℕ) → m < 16 → n < 16 → hex_digit m ≡ hex_digit n → m ≡ n
unfolding hex_digit
hex_digit_injective m n hm hn h = ground arith

byte_parts : (a b : ℕ) → a / 16 ≡ b / 16 → a % 16 ≡ b % 16 → a ≡ b
byte_parts a b h k = omega arith

hex_bytes_injective :
    (a b : List ℕ)
    → All (λ byte. byte < 256) a
    → All (λ byte. byte < 256) b
    → hex_bytes a ≡ hex_bytes b
    → a ≡ b
unfolding hex_bytes
hex_bytes_injective [] [] ha hb h = refl
hex_bytes_injective [] (y ∷ b) ha hb h = ground arith
hex_bytes_injective (x ∷ a) [] ha hb h = ground arith
hex_bytes_injective (x ∷ a) (y ∷ b) ha hb h = ground (
  arith,
  hex_bytes_injective a b ha.1 hb.1,
  byte_parts x y,
  hex_digit_injective (x / 16) (y / 16) (omega (arith, ha.0)) (omega (arith, hb.0)),
  hex_digit_injective (x % 16) (y % 16) (omega arith) (omega arith),
)

length-hex_bytes : (digest : List ℕ) → length (hex_bytes digest) ≡ 2 * length digest
unfolding hex_bytes
length-hex_bytes [] = refl
length-hex_bytes (x ∷ digest) = ground (arith, length-hex_bytes digest)

-- Two plaintexts whose digests are bytes have the same key exactly when they have the same digest,
-- and a key is twice as long as the digest.
pub bearer_token_key_injective :
    (sha256 : Text → List ℕ) (a b : Text)
    → All (λ byte. byte < 256) (sha256 a)
    → All (λ byte. byte < 256) (sha256 b)
    → ((bearer_token_key sha256 a ≡ bearer_token_key sha256 b) ↔ (sha256 a ≡ sha256 b))
      × (length (bearer_token_key sha256 a) ≡ 2 * length (sha256 a))
unfolding bearer_token_key
bearer_token_key_injective sha256 a b ha hb = (
  (hex_bytes_injective (sha256 a) (sha256 b) ha hb, λ e. ap hex_bytes e),
  length-hex_bytes (sha256 a),
)
