-- ===== src/App/Pipeline/Total.antt =====
-- crates/br-identity-app/src/pipeline.rs: every turn of the pipeline ends.
use br_rust_common.Base.{
  ℕ, zero, suc, some, Option, Result, ok, err, ◌>>◌, ◌≡◌, refl, Result-cases, inl, inr, ◌⊎◌,
}
use br_rust_common.Scope.Messages.{DeclareServiceScopes}
use br_rust_common.Scope.Error.{ScopeDeclarationError, scope_owned_by_another_service}
use br_rust_common.Scope.ServiceKey
use br_rust_common.Scope.ServiceKey.{ServiceKey, validate_segment}
use br_rust_common.Registry.Service.{RejectedIdentity, service, unrepresentable}
use br_rust_common.Registry.Event.{CommandResult}
use br_rust_common.Registry.State.{ScopeRegistry}
use br_rust_common.Registry.State.Valid.{IsRegistry}
use br_rust_common.Registry.Handler.{DeclarationOutcome, accepted, rejected}
use br_rust_common.Registry.Handler.Laws.{judge_declaration_total}
use br_rust_common.App.Error.{
  AppError, conflict_retries_exhausted, version_conflict, SaveOutcome, persisted, scope_conflict,
}
use br_rust_common.App.Pipeline.{
  reply_service, unrepresentable_service, reject, after_save, returned, Services, Turn, finished,
  retried, turn, after_judgement, after_save, handle_turns, max_attempts,
}

module _ {ℓ} {W : Type ℓ} (services : Services W) where
  -- Each registry that `load` gives is well-formed, as `hydrate` makes it.
  abbrev pub IsLoading : Type ℓ
  IsLoading =
      (w : W) (registry : ScopeRegistry) (version : ℕ)
      → (services.load w).0 ≡ ok (registry, version)
      → IsRegistry registry

  pub reply_service_total :
      (identity : RejectedIdentity) → (k : ServiceKey) × (reply_service identity ≡ some k)
  unfolding reply_service ServiceKey.new validate_segment
  reply_service_total (service k) = (k, refl)
  reply_service_total (unrepresentable raw) = (record { text = unrepresentable_service }, refl)

  reject_total :
      (command : DeclareServiceScopes) (identity : RejectedIdentity)
      (reason : ScopeDeclarationError) (w : W)
      → (out : Result DeclarationOutcome AppError × W) × (reject services command identity reason w
          ≡ some out)
  unfolding reject
  reject_total command identity reason w =
      let (k, e) = reply_service_total identity in
      let published = services.publish_rejected command k reason w in
      ((published.0 >> ok (rejected identity reason), published.1), rw (reject, e) refl)

  returned_total :
      (o : Option (Result DeclarationOutcome AppError × W))
      (out : Result DeclarationOutcome AppError × W)
      → o ≡ some out
      → (t : Turn × W) × (returned o ≡ some t)
  returned_total o out e = ((finished out.0, out.1), rw e refl)

  after_save_total :
      (command : DeclareServiceScopes) (k : ServiceKey) (result : CommandResult)
      (outcome : SaveOutcome) (w : W)
      → (t : Turn × W) × (after_save services command k result outcome w ≡ some t)
  unfolding after_save
  after_save_total command k result persisted w =
      let published = services.publish_accepted command k w in
      ((finished (published.0 >> ok (accepted k result)), published.1), refl)
  after_save_total command k result version_conflict w = ((retried, w), refl)
  after_save_total command k result (scope_conflict scope_key owner) w =
      let reason = scope_owned_by_another_service scope_key owner in
      let (out, e) = reject_total command (service k) reason w in
      returned_total (reject services command (service k) reason w) out e

  after_judgement_total :
      (command : DeclareServiceScopes) (version : ℕ) (registry : ScopeRegistry)
      (outcome : DeclarationOutcome) (w : W)
      → (t : Turn × W) × (after_judgement services command version registry outcome w ≡ some t)
  unfolding after_judgement
  after_judgement_total command version registry (rejected identity reason) w =
      let (out, e) = reject_total command identity reason w in
      returned_total (reject services command identity reason w) out e
  after_judgement_total command version registry (accepted k result) w =
      let after = (services.save registry version w).1 in
      elim (Result-cases (services.save registry version w).0) [
        | inr (e, h) ↦ ((finished (err e), after), rw (after_judgement, h) refl)
        | inl (outcome, h) ↦
            let (t, q) = after_save_total command k result outcome after in
            (t, rw (after_judgement, h) q)
      ]

  turn_total :
      (command : DeclareServiceScopes) (w : W)
      → IsLoading
      → (out : Turn × W) × (turn services command w ≡ some out)
  unfolding turn
  turn_total command w valid = elim (Result-cases (services.load w).0) [
    | inr (e, h) ↦ ((finished (err e), (services.load w).1), rw (turn, h) refl)
    | inl (head, h) ↦
        let (out, j) = judge_declaration_total head.0 command (valid w head.0 head.1 h) in
        let (t, q) = after_judgement_total command head.1 out.0 out.1 (services.load w).1 in
        (t, rw (turn, h, j) q)
  ]

  pub Turn-cases :
      (t : Turn) → ((r : Result DeclarationOutcome AppError) × (t ≡ finished r)) ⊎ (t ≡ retried)
  Turn-cases (finished r) = inl (r, refl)
  Turn-cases retried = inr refl

  pub handle_turns_total :
      (turns : ℕ) (command : DeclareServiceScopes) (w : W)
      → IsLoading
      → (out : Result DeclarationOutcome AppError × W) × (handle_turns services turns command w
          ≡ some out)
  unfolding handle_turns
  handle_turns_total zero command w valid =
      ((err (conflict_retries_exhausted max_attempts), w), refl)
  handle_turns_total (suc turns) command w valid =
      let (out, t) = turn_total command w valid in
      elim (Turn-cases out.0) [
        | inl (r, e) ↦ ((r, out.1), rw (handle_turns, t, e) refl)
        | inr e ↦
            let (rest, q) = handle_turns_total turns command out.1 valid in
            (rest, rw (handle_turns, t, e) q)
      ]
