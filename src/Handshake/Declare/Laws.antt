-- ===== src/Handshake/Declare/Laws.antt =====
-- crates/br-util-scope-declaration/src/handshake.rs: when a service becomes ready.
use br_rust_common.Base.{
  ℕ, ◌+◌, Bool, true, false, Text, List, [], ◌∷◌, ◌++◌, Option, none, some, Result, ok, err, ◌==◌,
  text_Eq, length, ◌≡◌, refl, arith, All, ◌⊎◌, inl, inr, Result-cases, Option-cases, Bool-cases,
}
use br_rust_common.Fabric.Error.{FabricError}
use br_rust_common.Handshake.Readiness.{
  Readiness, ready, not_ready, is_ready, set_ready, set_not_ready,
}
use br_rust_common.Handshake.Declare.{
  ScopeDeclarationOutcome, accepted, rejected, outcome_is_ready, CorrelatedMatch, Turn, Progress,
  resolve_match, declare_loop, declare_scopes,
}

set_not_ready-is_ready :
    (state : Readiness) (reason : Text) → is_ready (set_not_ready state reason).1 ≡ false
unfolding set_not_ready is_ready
set_not_ready-is_ready ready reason = refl
set_not_ready-is_ready (not_ready prev) reason = refl

module _ {ℓ} {R : Type ℓ} (decode : Text → Option R) (reason_text : R → Text)
    (accepted_subject : Text) where
  -- The readiness that goes with an answer: an outcome decides it, and without one it is as it was.
  unfoldable pub Agrees : Readiness → Progress R → Type 0
  Agrees before p = elim p.answer [
    | some (ok outcome) ↦ is_ready p.readiness ≡ outcome_is_ready outcome
    | some (err e) ↦ p.readiness ≡ before
    | none ↦ p.readiness ≡ before
  ]

  resolve_match-ready :
      (readiness : Readiness) (matched : CorrelatedMatch)
      → (((resolve_match decode reason_text accepted_subject readiness matched).0 ≡ none)
          × ((resolve_match decode reason_text accepted_subject readiness matched).1 ≡ readiness))
        ⊎ ((o : ScopeDeclarationOutcome R) × ((resolve_match decode reason_text accepted_subject
                readiness matched).0
              ≡ some o)
            × (is_ready (resolve_match decode reason_text accepted_subject readiness matched).1
                ≡ outcome_is_ready o))
  unfolding resolve_match set_ready set_not_ready is_ready outcome_is_ready
  resolve_match-ready readiness matched = elim (Bool-cases (matched.subject == accepted_subject)) [
    | inl e ↦ inr (accepted, ground (arith, e), ground (arith, e))
    | inr e ↦ elim (Option-cases (decode matched.payload)) [
      | inl d ↦ inl (ground (arith, e, d), ground (arith, e, d))
      | inr (reason, d) ↦ inr (
        rejected reason,
        ground (arith, e, d),
        ground (arith, e, d, set_not_ready-is_ready readiness),
      )
    ]
  ]

  declare_loop-Agrees :
      (readiness : Readiness) (publishes : ℕ) (turns : List Turn)
      → Agrees readiness
          (declare_loop decode reason_text accepted_subject readiness publishes turns)
  unfolding declare_loop Agrees
  declare_loop-Agrees readiness publishes [] = refl
  declare_loop-Agrees readiness publishes (turn ∷ turns) = elim (Result-cases turn.awaited) [
    | inr (e, a) ↦ rw (a, declare_loop) refl
    | inl (none, a) ↦ rw (a, declare_loop) (declare_loop-Agrees readiness (publishes + 1) turns)
    | inl (some matched, a) ↦ elim (resolve_match-ready readiness matched) [
      | inl (n, same) ↦
          rw (a, declare_loop, n, same) (declare_loop-Agrees readiness (publishes + 1) turns)
      | inr (o, n, r) ↦ rw (a, declare_loop, n) r
    ]
  ]

  -- The readiness always goes with the answer: the service is ready exactly when the outcome is
  -- `Accepted` or `Disabled`, and while there is no answer, or when the fabric fails, it is as it was
  -- before, whatever the broker delivers.
  pub declare_scopes-Agrees :
      (enabled : Bool) (awaiter : Result (Unit {0}) FabricError) (readiness : Readiness)
      (turns : List Turn)
      → Agrees readiness
          (declare_scopes decode reason_text accepted_subject enabled awaiter readiness turns)
  unfolding declare_scopes Agrees set_ready is_ready outcome_is_ready
  declare_scopes-Agrees false awaiter readiness turns = refl
  declare_scopes-Agrees true (err e) readiness turns = refl
  declare_scopes-Agrees true (ok _) readiness turns = declare_loop-Agrees readiness 0 turns

  -- A turn that leaves the loop waiting: nothing came, or a reply that is not the acceptance and
  -- cannot be decoded.
  pub data Waits : Turn → Type ℓ where
    silent : (turn : Turn) → turn.awaited ≡ ok none → Waits turn
    garbled :
        (turn : Turn) (matched : CorrelatedMatch)
        → turn.awaited ≡ ok (some matched)
        → (matched.subject == accepted_subject) ≡ false
        → decode matched.payload ≡ none
        → Waits turn

  loop-Waits :
      (readiness : Readiness) (publishes : ℕ) (turn : Turn) (turns : List Turn)
      → Waits turn
      → declare_loop decode reason_text accepted_subject readiness publishes (turn ∷ turns)
        ≡ declare_loop decode reason_text accepted_subject readiness (publishes + 1) turns
  unfolding declare_loop resolve_match
  loop-Waits readiness publishes turn turns (silent _ a) = ground (arith, a)
  loop-Waits readiness publishes turn turns (garbled _ matched a n d) = ground (arith, a, n, d)

  -- However long Identity is silent or its replies are garbled, the acceptance makes the service
  -- ready: the command is published once for each turn, the last one included, whether a publish
  -- succeeds or not.
  pub declare_loop-accepted :
      (readiness : Readiness) (publishes : ℕ) (before after : List Turn) (turn : Turn)
      (matched : CorrelatedMatch)
      → All Waits before
      → turn.awaited ≡ ok (some matched)
      → (matched.subject == accepted_subject) ≡ true
      → declare_loop decode reason_text accepted_subject readiness publishes
          (before ++ turn ∷ after)
        ≡ record {
          answer = some (ok accepted);
          readiness = ready;
          publishes = publishes + (length before + 1);
        }
  unfolding declare_loop resolve_match set_ready
  declare_loop-accepted readiness publishes [] after turn matched w a s = ground (arith, a, s)
  declare_loop-accepted readiness publishes (first ∷ before) after turn matched w a s = ground (
    arith,
    loop-Waits readiness publishes first (before ++ turn ∷ after) w.0,
    declare_loop-accepted readiness (publishes + 1) before after turn matched w.1 a s,
  )
