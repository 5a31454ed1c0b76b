-- ===== src/Fabric/Decimal.antt =====
-- A `u8` in decimal, as Rust prints it and as `str::parse::<u8>` reads it.
use br_rust_common.Base.{
  ℕ, zero, suc, ◌+◌, ◌-◌, ◌*◌, ◌/◌, ◌%◌, ◌<◌, Bool, true, false, ◌&&◌, Text, [], ◌∷◌, all, leb, ltb,
  nat_eq, nat_eq_iff, is_ascii_digit, Option, none, some, if◌then◌else◌, ◌≡◌, refl, arith,
}

-- `{}` of a number below 1000.
unfoldable pub decimal : ℕ → Text
decimal n =
    if ltb n 10
    then (b'0' + n) ∷ []
    else if ltb n 100
    then (b'0' + n / 10) ∷ (b'0' + n % 10) ∷ []
    else (b'0' + n / 100) ∷ (b'0' + (n / 10) % 10) ∷ (b'0' + n % 10) ∷ []

-- Digits into an accumulator, with the overflow check of the standard library.
digits_u8 : ℕ → Text → Option ℕ
digits_u8 acc [] = some acc
digits_u8 acc (c ∷ s) =
    let next = acc * 10 + (c - b'0') in
    let rest = digits_u8 next s in if is_ascii_digit c && leb next 255 then rest else none

-- One leading `+` is accepted, and the digits may not be missing.
unfoldable pub parse_u8 : Text → Option ℕ
unfolding digits_u8
parse_u8 [] = none
parse_u8 (c ∷ []) = digits_u8 0 (c ∷ [])
parse_u8 (c ∷ d ∷ s) = if nat_eq c b'+' then digits_u8 0 (d ∷ s) else digits_u8 0 (c ∷ d ∷ s)

same : Option ℕ → ℕ → Bool
same none n = false
same (some m) n = nat_eq m n

same_sound : (o : Option ℕ) (n : ℕ) → same o n ≡ true → o ≡ some n
unfolding same
same_sound none n h = cc
same_sound (some m) n h = ground (arith, nat_eq_iff m n)

-- A test of the first `bound` numbers, the last of them first.
every_u8 : (ℕ → Bool) → ℕ → Bool
every_u8 test zero = true
every_u8 test (suc bound) = if test bound then every_u8 test bound else false

every_u8_sound :
    (test : ℕ → Bool) (bound n : ℕ) → n < bound → every_u8 test bound ≡ true → test n ≡ true
unfolding every_u8
every_u8_sound test zero n l h = ground arith
every_u8_sound test (suc bound) n l h = ground (arith, every_u8_sound test bound n)

table : every_u8 (λ n. same (parse_u8 (decimal n)) n) 256 ≡ true
unfolding every_u8 same parse_u8 decimal
table = refl

-- Each `u8` that is printed is read back.
pub parse_u8-decimal : (n : ℕ) → n < 256 → parse_u8 (decimal n) ≡ some n
parse_u8-decimal n h = same_sound (parse_u8 (decimal n)) n (every_u8_sound _ 256 n h table)

dot_table : every_u8 (λ n. all is_ascii_digit (decimal n)) 256 ≡ true
unfolding every_u8 decimal
dot_table = refl

pub decimal-digits : (n : ℕ) → n < 256 → all is_ascii_digit (decimal n) ≡ true
decimal-digits n h = every_u8_sound _ 256 n h dot_table

digits_u8-lt : (acc : ℕ) (s : Text) (n : ℕ) → acc < 256 → digits_u8 acc s ≡ some n → n < 256
unfolding digits_u8
digits_u8-lt acc [] n l h = ground arith
digits_u8-lt acc (c ∷ s) n l h = ground (arith, digits_u8-lt (acc * 10 + (c - b'0')) s n)

-- What is read is a `u8`.
pub parse_u8-lt : (s : Text) (n : ℕ) → parse_u8 s ≡ some n → n < 256
unfolding parse_u8
parse_u8-lt [] n h = cc
parse_u8-lt (c ∷ []) n h = digits_u8-lt 0 (c ∷ []) n (omega arith) h
parse_u8-lt (c ∷ d ∷ s) n h =
    ground
      (arith, digits_u8-lt 0 (d ∷ s) n (omega arith), digits_u8-lt 0 (c ∷ d ∷ s) n (omega arith))
