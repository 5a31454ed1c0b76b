-- ===== src/Handshake/Declare.antt =====
-- crates/br-util-scope-declaration/src/handshake.rs and outcome.rs: the loop that declares the scopes
-- and waits. What each publish and each wait answers is an argument, turn by turn; so are the
-- subject that accepts and the decoder of a rejection `R`, with the text of its reason.
pub mod Laws
use br_rust_common.Base.{
  ℕ, zero, suc, ◌+◌, Bool, true, false, not, ◌&&◌, Text, bytes, List, [], ◌∷◌, ◌++◌, Option, none,
  some, Result, ok, err, ◌==◌, text_Eq, length, if◌then◌else◌, ◌≡◌, refl, arith, All, ◌⊎◌, inl, inr,
  Result-cases, Option-cases, Bool-cases,
}
use br_rust_common.Fabric.Error.{FabricError}
use br_rust_common.Handshake.Readiness.{
  Readiness, ready, not_ready, is_ready, set_ready, set_not_ready,
}

pub data ScopeDeclarationOutcome {ℓ} (R : Type ℓ) : Type ℓ where
  accepted disabled : ScopeDeclarationOutcome R
  rejected : R → ScopeDeclarationOutcome R

unfoldable pub outcome_is_ready {ℓ} : {R : Type ℓ} → ScopeDeclarationOutcome R → Bool
outcome_is_ready accepted = true
outcome_is_ready disabled = true
outcome_is_ready (rejected _) = false

pub record CorrelatedMatch : Type 0 where
  pub subject : Text
  pub payload : Text

-- A turn of the loop: what the publish answers, and what the wait does.
pub record Turn : Type 0 where
  pub published : Result (Unit {0}) FabricError
  pub awaited : Result (Option CorrelatedMatch) FabricError

-- Where the loop is after the turns given: the answer, or none while it still waits.
pub record Progress {ℓ} (R : Type ℓ) : Type ℓ where
  pub answer : Option (Result (ScopeDeclarationOutcome R) FabricError)
  pub readiness : Readiness
  pub publishes : ℕ

module _ {ℓ} {R : Type ℓ} (decode : Text → Option R) (reason_text : R → Text)
    (accepted_subject : Text) where
  unfoldable pub resolve_match :
      Readiness → CorrelatedMatch → Option (ScopeDeclarationOutcome R) × Readiness
  resolve_match readiness matched =
      let refused : Option (ScopeDeclarationOutcome R) × Readiness = elim (decode matched.payload) [
        | none ↦ (none, readiness)
        | some reason ↦ (
          some (rejected reason),
          (set_not_ready readiness (bytes "scope declaration rejected: " ++ reason_text reason)).1,
        )
      ] in
      if matched.subject == accepted_subject
      then (some accepted, (set_ready readiness).1)
      else refused

  unfoldable pub declare_loop : Readiness → ℕ → List Turn → Progress R
  declare_loop readiness publishes [] = record {
    answer = none;
    readiness = readiness;
    publishes = publishes;
  }
  declare_loop readiness publishes (turn ∷ turns) =
      let now = publishes + 1 in
      elim turn.awaited [
        | err e ↦ record { answer = some (err e); readiness = readiness; publishes = now }
        | ok none ↦ declare_loop readiness now turns
        | ok (some matched) ↦
            let (outcome, after) = resolve_match readiness matched in
            elim outcome [
              | some o ↦ record { answer = some (ok o); readiness = after; publishes = now }
              | none ↦ declare_loop after now turns
            ]
      ]

  -- `declare_scopes`, over what `await_events` answers.
  unfoldable pub declare_scopes :
      Bool → Result (Unit {0}) FabricError → Readiness → List Turn → Progress R
  declare_scopes enabled awaiter readiness turns =
      if not enabled
      then record {
        answer = some (ok disabled);
        readiness = (set_ready readiness).1;
        publishes = 0;
      }
      else elim awaiter [
        | err e ↦ record { answer = some (err e); readiness = readiness; publishes = 0 }
        | ok _ ↦ declare_loop readiness 0 turns
      ]
