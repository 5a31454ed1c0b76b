-- ===== src/Outbox/Status.antt =====
-- crates/br-core-integration/src/outbox/status.rs: the states of a row and the step between them.
use br_rust_common.Base.{
  ℕ, zero, suc, ◌+◌, ◌-◌, ◌^◌, ◌<◌, Bool, true, false, Text, bytes, ◌==◌, text_Eq, Result, ok, err,
  if◌then◌else◌, leb, ltb, ltb→lt, Bool-cases, ap, inl, inr, ◌↔◌, ◌≡◌, refl, arith,
}
use br_rust_common.Outbox.Retry.{min, max}

pub data OutboxStatus : Type 0 where
  pending published failed : OutboxStatus

pub data UnknownOutboxStatus : Type 0 where
  unknown_outbox_status : Text → UnknownOutboxStatus

unfoldable pub as_db_str : OutboxStatus → Text
as_db_str pending = bytes "PENDING"
as_db_str published = bytes "PUBLISHED"
as_db_str failed = bytes "FAILED"

unfoldable pub from_db_str : Text → Result OutboxStatus UnknownOutboxStatus
from_db_str value =
    if value == bytes "PENDING"
    then ok pending
    else if value == bytes "PUBLISHED"
    then ok published
    else if value == bytes "FAILED"
    then ok failed
    else err (unknown_outbox_status value)

abbrev pub is_terminal : OutboxStatus → Bool
is_terminal pending = false
is_terminal published = true
is_terminal failed = true

pub record Transition : Type 0 where
  pub status : OutboxStatus
  pub attempts : ℕ

-- `u32::saturating_add` of one.
unfoldable pub saturating_suc : ℕ → ℕ
saturating_suc n = min (n + 1) (2 ^ 32 - 1)

unfoldable pub next_after_attempt : ℕ → ℕ → Bool → Transition
next_after_attempt prior_attempts max_attempts succeeded =
    let attempts = saturating_suc prior_attempts in
    let cap = max max_attempts 1 in
    let status = if succeeded then published else if leb cap attempts then failed else pending in
    record { status = status; attempts = attempts }

-- A text reads as a status exactly if it is the text that the status is written as.
pub from_db_str-eq-ok_iff :
    (value : Text) (status : OutboxStatus)
    → (from_db_str value ≡ ok status) ↔ (value ≡ as_db_str status)
unfolding from_db_str as_db_str
from_db_str-eq-ok_iff value pending = ground (arith, text_Eq.beq_iff value (bytes "PENDING"))
from_db_str-eq-ok_iff value published =
    ground
      (arith, text_Eq.beq_iff value (bytes "PENDING"), text_Eq.beq_iff value (bytes "PUBLISHED"))
from_db_str-eq-ok_iff value failed = ground (
  arith,
  text_Eq.beq_iff value (bytes "PENDING"),
  text_Eq.beq_iff value (bytes "PUBLISHED"),
  text_Eq.beq_iff value (bytes "FAILED"),
)

-- The failures of a row, one after the other: a row that has become terminal is not attempted.
abbrev fail_times : ℕ → ℕ → Transition → Transition
fail_times zero max_attempts t = t
fail_times (suc n) max_attempts t =
    if is_terminal t.status
    then t
    else fail_times n max_attempts (next_after_attempt t.attempts max_attempts false)

fail_times-terminal :
    (n m : ℕ) (t : Transition) → is_terminal t.status ≡ true → fail_times n m t ≡ t
fail_times-terminal zero m t h = refl
fail_times-terminal (suc n) m t h = rw h refl

next-pending :
    (a m : ℕ)
    → m < 2 ^ 32
    → suc a < max m 1
    → next_after_attempt a m false ≡ record { status = pending; attempts = suc a }
unfolding next_after_attempt saturating_suc
next-pending a m hm ha = ground arith

next-failed :
    (a m : ℕ)
    → m < 2 ^ 32
    → suc a ≡ max m 1
    → next_after_attempt a m false ≡ record { status = failed; attempts = suc a }
unfolding next_after_attempt saturating_suc
next-failed a m hm ha = ground arith

-- `n` failures take a pending row that still has attempts left to `failed` exactly if they use
-- up the attempts allowed (at least one), and its count never passes that number.
fail_times-eq :
    (n m a : ℕ)
    → m < 2 ^ 32
    → a < max m 1
    → fail_times n m (record { status = pending; attempts = a }) ≡ record {
      status = if leb (max m 1) (n + a) then failed else pending;
      attempts = min (n + a) (max m 1);
    }
fail_times-eq zero m a hm ha = ground arith
fail_times-eq (suc n) m a hm ha = elim (Bool-cases (ltb (suc a) (max m 1))) [
  | inl e ↦ ground (
    arith,
    next-pending a m hm (ltb→lt (suc a) (max m 1) e),
    fail_times-eq n m (suc a) hm (ltb→lt (suc a) (max m 1) e),
    ap (fail_times n m) (next-pending a m hm (ltb→lt (suc a) (max m 1) e)),
  )
  | inr e ↦ ground (
    arith,
    next-failed a m hm (ground arith),
    fail_times-terminal n m (record { status = failed; attempts = suc a }) refl,
    ap (fail_times n m) (next-failed a m hm (ground arith)),
  )
]
