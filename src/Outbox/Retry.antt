-- ===== src/Outbox/Retry.antt =====
-- crates/br-core-integration/src/outbox/retry.rs: the delay before the next attempt.
-- A `Duration` is its number of milliseconds.
use br_rust_common.Base.{
  ℕ, zero, suc, ◌-◌, ◌*◌, ◌%◌, ◌^◌, ◌≤◌, Option, none, some, ltb, if◌then◌else◌, ◌≡◌, arith,
}

abbrev pub retry_backoff_base : ℕ
retry_backoff_base = 500

abbrev pub retry_backoff_max : ℕ
retry_backoff_max = 30000

abbrev pub min : ℕ → ℕ → ℕ
min a b = if ltb b a then b else a

abbrev pub max : ℕ → ℕ → ℕ
max a b = if ltb a b then b else a

-- `u64::checked_shl`.
unfoldable pub checked_shl : ℕ → ℕ → Option ℕ
checked_shl x shift = if ltb shift 64 then some (x * 2 ^ shift % 2 ^ 64) else none

-- `u128::saturating_mul`.
unfoldable pub saturating_mul : ℕ → ℕ → ℕ
saturating_mul a b = min (a * b) (2 ^ 128 - 1)

abbrev unwrap_or : Option ℕ → ℕ → ℕ
unwrap_or none d = d
unwrap_or (some x) d = x

unfoldable pub retry_backoff : ℕ → ℕ
retry_backoff attempts =
    let shift = max attempts 1 - 1 in
    let factor = unwrap_or (checked_shl 1 shift) (2 ^ 64 - 1) in
    let millis = saturating_mul retry_backoff_base factor in min millis retry_backoff_max % 2 ^ 64

pub two_pow-suc : (n : ℕ) → 2 ^ suc n ≡ 2 * 2 ^ n
two_pow-suc n = ground arith

pub two_pow_mono : (a b : ℕ) → a ≤ b → 2 ^ a ≤ 2 ^ b
two_pow_mono zero zero h = ground arith
two_pow_mono (suc a) zero h = ground arith
two_pow_mono zero (suc b) h = ground (arith, two_pow_mono zero b, two_pow-suc b)
two_pow_mono (suc a) (suc b) h = ground (arith, two_pow_mono a b, two_pow-suc a, two_pow-suc b)

-- The delay is half a second doubled with each attempt after the first, and at most half a
-- minute: no machine width shows in it, however many attempts there were.
pub retry_backoff-eq : (n : ℕ) → retry_backoff n ≡ min (500 * 2 ^ (n - 1)) 30000
unfolding retry_backoff checked_shl saturating_mul
retry_backoff-eq n = ground (arith, two_pow_mono (n - 1) 63, two_pow_mono 64 (n - 1))
