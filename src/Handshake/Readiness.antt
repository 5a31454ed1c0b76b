-- ===== src/Handshake/Readiness.antt =====
-- crates/br-util-axum-readiness/src/lib.rs: the readiness of a service, and what its route answers.
-- A handle is its state; a write also says whether it is logged.
use br_rust_common.Base.{ℕ, Bool, true, false, not, Text, bytes, ◌==◌, text_Eq, ◌≡◌, ◌↔◌, arith}

pub data Readiness : Type 0 where
  ready : Readiness
  not_ready : (reason : Text) → Readiness

unfoldable pub is_ready : Readiness → Bool
is_ready ready = true
is_ready (not_ready _) = false

unfoldable pub set_ready : Readiness → Bool × Readiness
unfolding is_ready
set_ready state = (not (is_ready state), ready)

unfoldable pub set_not_ready : Readiness → Text → Bool × Readiness
set_not_ready ready reason = (true, not_ready reason)
set_not_ready (not_ready prev) reason = (not (prev == reason), not_ready reason)

-- The status and the body of `GET /readyz`.
unfoldable pub readiness_route : Readiness → ℕ × Text
readiness_route ready = (200, bytes "ready")
readiness_route (not_ready reason) = (503, reason)

-- A write is logged exactly when it changes the state.
pub set-logged_iff :
    (state : Readiness) (reason : Text)
    → (((set_ready state).0 ≡ false) ↔ ((set_ready state).1 ≡ state))
      × (((set_not_ready state reason).0 ≡ false) ↔ ((set_not_ready state reason).1 ≡ state))
unfolding set_ready set_not_ready is_ready
set-logged_iff ready reason = (ground arith, ground arith)
set-logged_iff (not_ready prev) reason = (ground arith, ground (arith, text_Eq.beq_iff prev reason))
