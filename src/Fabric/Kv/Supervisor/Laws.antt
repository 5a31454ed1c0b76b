-- ===== src/Fabric/Kv/Supervisor/Laws.antt =====
-- crates/br-util-nats-fabric/src/kv/supervisor.rs: the invariant of the loop.
use br_rust_common.Base.{
  ℕ, ◌≤◌, ◌+◌, Text, ◌∷◌, Result, ok, err, All, if◌then◌else◌, ◌≡◌, refl, arith, Bool-cases, inl,
  inr,
}
use br_rust_common.Outbox.Retry.{min}
use br_rust_common.Fabric.Consumer.Backoff.{Backoff, new, next_delay, reset, duration_max}
use br_rust_common.Fabric.Kv.Projection.{FollowReport}
use br_rust_common.Fabric.Kv.Supervisor.{
  Supervisor, Phase, reconciling, following, WatchHealth, healthy, degraded, set_health, sleep,
  start, after_reconcile, after_follow, Step, reconciles, follows, Reaches, starts, steps,
  WatchProgress, observed, record_change, record_skip, u64_max,
}

abbrev pub health_of : Phase → WatchHealth
health_of reconciling = degraded
health_of following = healthy

-- The delay is between the initial one and the cap.
pub record InRange (b : Backoff) : Type 0 where
  pub low : b.initial ≤ b.current
  pub high : b.current ≤ b.cap
  pub cap_max : b.cap ≤ duration_max

pub record IsValid (backoff : Backoff) (s : Supervisor) : Type 0 where
  pub health : s.health ≡ health_of s.phase
  pub initial : s.backoff.initial ≡ backoff.initial
  pub cap : s.backoff.cap ≡ backoff.cap
  pub range : InRange s.backoff
  pub delays : All (λ d. (backoff.initial ≤ d) × (d ≤ backoff.cap)) s.slept

pub set_health-eq : (a b : WatchHealth) → (set_health a b).1 ≡ b
unfolding set_health
set_health-eq healthy healthy = refl
set_health-eq healthy degraded = refl
set_health-eq degraded healthy = refl
set_health-eq degraded degraded = refl

next_delay-InRange : (b : Backoff) → InRange b → InRange (next_delay b).1
unfolding next_delay
next_delay-InRange b r = record {
  low = ground (arith, r.low, r.high, r.cap_max);
  high = ground arith;
  cap_max = r.cap_max;
}

reset-InRange : (b : Backoff) → InRange b → InRange (reset b)
reset-InRange b r = record {
  low = omega arith;
  high = omega (arith, r.low, r.high);
  cap_max = r.cap_max;
}

sleep-IsValid : (backoff : Backoff) (s : Supervisor) → IsValid backoff s → IsValid backoff (sleep s)
unfolding sleep next_delay
sleep-IsValid backoff s v = record {
  health = v.health;
  initial = v.initial;
  cap = v.cap;
  range = next_delay-InRange s.backoff v.range;
  delays = ((omega (arith, v.initial, v.range.low), omega (arith, v.cap, v.range.high)), v.delays);
}

after_reconcile-IsValid :
    (backoff : Backoff) (answer : Result (Unit {0}) Text) (s : Supervisor)
    → IsValid backoff s
    → s.phase ≡ reconciling
    → IsValid backoff (after_reconcile answer s)
unfolding after_reconcile
after_reconcile-IsValid backoff (ok _) s v p = record {
  health = set_health-eq s.health healthy;
  initial = v.initial;
  cap = v.cap;
  range = v.range;
  delays = v.delays;
}
after_reconcile-IsValid backoff (err e) s v p =
    sleep-IsValid backoff (record s { health = (set_health s.health degraded).1 })
      (record {
        health = rw p (set_health-eq s.health degraded);
        initial = v.initial;
        cap = v.cap;
        range = v.range;
        delays = v.delays;
      })

after_follow-IsValid :
    (backoff : Backoff) (report : FollowReport) (s : Supervisor)
    → IsValid backoff s
    → IsValid backoff (after_follow report s)
unfolding after_follow
after_follow-IsValid backoff report s v =
    let b = if report.progressed then reset s.backoff else s.backoff in
    sleep-IsValid backoff
      (record s { phase = reconciling; health = (set_health s.health degraded).1; backoff = b })
      (elim (Bool-cases report.progressed) [
        | inl e ↦ rw e (record {
          health = set_health-eq s.health degraded;
          initial = v.initial;
          cap = v.cap;
          range = reset-InRange s.backoff v.range;
          delays = v.delays;
        })
        | inr e ↦ rw e (record {
          health = set_health-eq s.health degraded;
          initial = v.initial;
          cap = v.cap;
          range = v.range;
          delays = v.delays;
        })
      ])

Step-IsValid :
    (backoff : Backoff) (s t : Supervisor) → IsValid backoff s → Step s t → IsValid backoff t
Step-IsValid backoff s t v (reconciles answer _ p) = after_reconcile-IsValid backoff answer s v p
Step-IsValid backoff s t v (follows report _ p) = after_follow-IsValid backoff report s v

-- The invariant of the loop, in each state it reaches: the health is `Healthy` exactly while the
-- loop follows the watch, and each delay it slept is at least the initial one and at most the cap;
-- the backoff is new, its initial delay is at most its cap, and the cap is a `Duration`.
pub Reaches-IsValid :
    (initial cap : ℕ) (s : Supervisor)
    → initial ≤ cap
    → cap ≤ duration_max
    → Reaches (new initial cap) s
    → IsValid (new initial cap) s
unfolding start
Reaches-IsValid initial cap s h k starts = record {
  health = refl;
  initial = refl;
  cap = refl;
  range = record { low = omega arith; high = h; cap_max = k };
  delays = tt;
}
Reaches-IsValid initial cap s h k (steps before _ r step) =
    Step-IsValid (new initial cap) before s (Reaches-IsValid initial cap before h k r) step

-- After a cycle that delivered something the loop sleeps the initial delay, whatever the failures
-- before, and after any other cycle the current one.
pub after_follow-slept :
    (report : FollowReport) (s : Supervisor)
    → (after_follow report s).slept
      ≡ (if report.progressed then s.backoff.initial else s.backoff.current) ∷ s.slept
unfolding after_follow sleep next_delay
after_follow-slept report s = elim (Bool-cases report.progressed) [
  | inl e ↦ rw e refl
  | inr e ↦ rw e refl
]

-- A change, or a skip, makes the number observed one more, unless that is already the largest of 64
-- bits.
pub observed-record_change :
    (p : WatchProgress)
    → p.changes ≤ u64_max
    → (observed (record_change p) ≡ min (observed p + 1) u64_max)
      × (observed (record_skip p) ≡ min (observed p + 1) u64_max)
unfolding observed record_change record_skip
observed-record_change p h = (ground arith, ground arith)
