-- ===== src/Fabric/Kv/Supervisor.antt =====
-- crates/br-util-nats-fabric/src/kv/supervisor.rs, health.rs and progress.rs: the loop that keeps a
-- projection running. `slept` is the list of the delays, the last one first; what a cycle answers
-- is an argument of each step.
pub mod Laws
use br_rust_common.Base.{
  ℕ, ◌+◌, ◌-◌, ◌^◌, Bool, true, false, Text, List, [], ◌∷◌, Result, ok, err, if◌then◌else◌, ◌≡◌,
}
use br_rust_common.Outbox.Retry.{min}
use br_rust_common.Fabric.Consumer.Backoff.{Backoff, next_delay, reset}
use br_rust_common.Fabric.Kv.Projection.{FollowReport}

pub data WatchHealth : Type 0 where
  healthy degraded : WatchHealth

-- Where the loop stands: at a call of `reconcile`, or at a call of `follow`.
pub data Phase : Type 0 where
  reconciling following : Phase

pub record Supervisor : Type 0 where
  pub phase : Phase
  pub health : WatchHealth
  pub backoff : Backoff
  pub slept : List ℕ

-- `WatchHealthChannel::set`, with whether the receivers are told.
unfoldable pub set_health : WatchHealth → WatchHealth → Bool × WatchHealth
set_health healthy healthy = (false, healthy)
set_health degraded degraded = (false, degraded)
set_health current health = (true, health)

-- `backoff.sleep()`.
unfoldable pub sleep : Supervisor → Supervisor
sleep s =
    let (delay, next) = next_delay s.backoff in record s { backoff = next; slept = delay ∷ s.slept }

unfoldable pub start : Backoff → Supervisor
start backoff = record { phase = reconciling; health = degraded; backoff = backoff; slept = [] }

-- One turn of the inner loop: the answer of `reconcile`.
unfoldable pub after_reconcile : Result (Unit {0}) Text → Supervisor → Supervisor
after_reconcile (ok _) s = record s { phase = following; health = (set_health s.health healthy).1 }
after_reconcile (err _) s = sleep (record s { health = (set_health s.health degraded).1 })

-- The rest of the outer loop: the answer of `follow`.
unfoldable pub after_follow : FollowReport → Supervisor → Supervisor
after_follow report s =
    let backoff = if report.progressed then reset s.backoff else s.backoff in
    sleep (record s {
      phase = reconciling;
      health = (set_health s.health degraded).1;
      backoff = backoff;
    })

-- The steps of `supervise`.
pub data Step : Supervisor → Supervisor → Type 0 where
  reconciles :
      (answer : Result (Unit {0}) Text) (s : Supervisor)
      → s.phase ≡ reconciling
      → Step s (after_reconcile answer s)
  follows :
      (report : FollowReport) (s : Supervisor)
      → s.phase ≡ following
      → Step s (after_follow report s)

pub data Reaches (backoff : Backoff) : Supervisor → Type 0 where
  starts : Reaches backoff (start backoff)
  steps : (s t : Supervisor) → Reaches backoff s → Step s t → Reaches backoff t

-- `WatchProgress`: two counters of 64 bits that stop at the top.
pub record WatchProgress : Type 0 where
  pub changes : ℕ
  pub skipped : ℕ

abbrev pub u64_max : ℕ
u64_max = 2 ^ 64 - 1

unfoldable pub observed : WatchProgress → ℕ
observed p = min (p.changes + p.skipped) u64_max

unfoldable pub record_change : WatchProgress → WatchProgress
record_change p = record p { changes = min (p.changes + 1) u64_max }

unfoldable pub record_skip : WatchProgress → WatchProgress
record_skip p = record p { skipped = min (p.skipped + 1) u64_max }
