-- ===== src/Fabric/Consumer/Backoff.antt =====
-- crates/br-util-nats-fabric/src/consumer/backoff.rs: delays that double up to a cap.
-- A `Duration` is its number of nanoseconds.
use br_rust_common.Base.{ℕ, zero, suc, ◌-◌, ◌*◌, ◌^◌, ◌≤◌, List, [], ◌∷◌, ◌≡◌, refl, arith}
use br_rust_common.Outbox.Retry.{min, two_pow-suc}

abbrev pub millisecond : ℕ
millisecond = 1000000

abbrev pub duration_max : ℕ
duration_max = 2 ^ 64 * 1000000000 - 1

pub record Backoff : Type 0 where
  pub current : ℕ
  pub initial : ℕ
  pub cap : ℕ

abbrev pub new : ℕ → ℕ → Backoff
new initial cap = record { current = initial; initial = initial; cap = cap }

abbrev pub production : Backoff
production = new (200 * millisecond) (30000 * millisecond)

abbrev pub reset : Backoff → Backoff
reset b = record b { current = b.initial }

unfoldable pub next_delay : Backoff → ℕ × Backoff
next_delay b = (b.current, record b { current = min (min (b.current * 2) duration_max) b.cap })

-- The first delays, in order.
abbrev pub delays : ℕ → Backoff → List ℕ
delays zero b = []
delays (suc n) b = let (d, b') = next_delay b in d ∷ delays n b'

-- The backoff after `n` delays.
abbrev pub after : ℕ → Backoff → Backoff
after zero b = b
after (suc n) b = after n (next_delay b).1

after-suc : (n : ℕ) (b : Backoff) → after (suc n) b ≡ (next_delay (after n b)).1
after-suc zero b = refl
after-suc (suc n) b = after-suc n (next_delay b).1

after-fixed : (n : ℕ) (b : Backoff) → ((after n b).cap ≡ b.cap) × ((after n b).initial ≡ b.initial)
unfolding next_delay
after-fixed zero b = (refl, refl)
after-fixed (suc n) b = after-fixed n (next_delay b).1

double : (x n : ℕ) → x * 2 ^ suc n ≡ x * 2 ^ n * 2
double x n = rw (two_pow-suc n) (ground arith)

-- The delay after `n` others is the initial one doubled `n` times, and at most the cap; the
-- initial delay is at most the cap, and the cap is a `Duration`.
pub next_delay-after :
    (n initial cap : ℕ)
    → initial ≤ cap
    → cap ≤ duration_max
    → (next_delay (after n (new initial cap))).0 ≡ min (initial * 2 ^ n) cap
unfolding next_delay
next_delay-after zero initial cap h k = ground arith
next_delay-after (suc n) initial cap h k = ground (
  arith,
  after-suc n (new initial cap),
  after-fixed n (new initial cap),
  next_delay-after n initial cap h k,
  double initial n,
)
