-- ===== src/App/Pipeline/Laws.antt =====
-- crates/br-identity-app/src/pipeline.rs: what the pipeline answers, and when it gives up.
use br_rust_common.Base.{ℕ, zero, suc, some, Result, ok, err, ◌≡◌, refl, ap, ◌∙◌}
use br_rust_common.Scope.Declaration.{ScopeDeclaration}
use br_rust_common.Scope.Messages
use br_rust_common.Scope.Messages.{DeclareServiceScopes}
use br_rust_common.Scope.ServiceKey.{ServiceKey}
use br_rust_common.Registry.Event.{CommandResult}
use br_rust_common.Registry.State.{ScopeRegistry}
use br_rust_common.Registry.State.Valid.{IsRegistry}
use br_rust_common.Registry.Handler.{DeclarationOutcome, accepted}
use br_rust_common.Registry.Handler.Laws.{judge_declaration-accepted}
use br_rust_common.App.Error.{AppError, conflict_retries_exhausted, version_conflict}
use br_rust_common.App.Pipeline.{
  after_save, Services, retried, turn, after_judgement, after_save, handle_turns, handle,
  max_attempts,
}
use br_rust_common.App.Pipeline.Total.{IsLoading, handle_turns_total}
use br_rust_common.App.Pipeline.Saved.{IsSaved, handle_turns-IsSaved}

-- If each registry that `load` gives is well-formed, the pipeline answers every command, with an
-- outcome or an error, whatever the saves and the publications do: it does not panic. It answers
-- that the command is accepted only after turns that met another writer, and then one in which it
-- loaded a registry, judged the command against it with this outcome, saved what the registry
-- became at the version that was loaded, and sent the confirmation, in this order.
pub handle_total {ℓ} :
    {W : Type ℓ} (services : Services W) (command : DeclareServiceScopes) (w : W)
    → IsLoading services
    → (out : Result DeclarationOutcome AppError × W) × (handle services command w ≡ some out)
      × ((k : ServiceKey) (result : CommandResult)
          → out.0 ≡ ok (accepted k result)
          → IsSaved services command k result w out.1)
unfolding handle
handle_total services command w valid =
    let (out, h) = handle_turns_total services max_attempts command w valid in
    (
      out,
      h,
      λ k result e.
          handle_turns-IsSaved services command k result max_attempts w out.1
            (h ∙ ap (λ r. some (r, out.1)) e),
    )

module _ {ℓ} {W : Type ℓ} (services : Services W) (command : DeclareServiceScopes) where
  -- The registry loads, and each save meets another writer.
  abbrev pub IsContended : Type ℓ
  IsContended =
      (w : W)
      → (head : ScopeRegistry × ℕ) × ((services.load w).0 ≡ ok head)
        × IsRegistry head.0
        × ((registry : ScopeRegistry) (v : W)
            → (services.save registry head.1 v).0 ≡ ok version_conflict)

  after_judgement-contended :
      (version : ℕ) (registry : ScopeRegistry) (k : ServiceKey) (result : CommandResult) (w : W)
      → (services.save registry version w).0 ≡ ok version_conflict
      → after_judgement services command version registry (accepted k result) w
        ≡ some (retried, (services.save registry version w).1)
  unfolding after_judgement after_save
  after_judgement-contended version registry k result w h = rw (after_judgement, h) refl

  turn-contended :
      (d : ScopeDeclaration) (w : W)
      → IsContended
      → Messages.validate command ≡ ok d
      → (w' : W) × (turn services command w ≡ some (retried, w'))
  unfolding turn
  turn-contended d w contended h =
      let (head, l, v, s) = contended w in
      let (after, result, j, _) = judge_declaration-accepted head.0 command d v h in
      let w1 = (services.load w).1 in
      let q = after_judgement-contended head.1 after d.manifest.key result w1 (s after w1) in
      ((services.save after head.1 w1).1, rw (turn, l, j) q)

  handle_turns-contended :
      (turns : ℕ) (d : ScopeDeclaration) (w : W)
      → IsContended
      → Messages.validate command ≡ ok d
      → (w' : W) × (handle_turns services turns command w
          ≡ some (err (conflict_retries_exhausted max_attempts), w'))
  unfolding handle_turns
  handle_turns-contended zero d w contended h = (w, refl)
  handle_turns-contended (suc turns) d w contended h =
      let (v, t) = turn-contended d w contended h in
      let (w', q) = handle_turns-contended turns d v contended h in (w', rw (handle_turns, t) q)

-- If each load gives a well-formed registry and each save meets another writer, a command that
-- validates ends in the error that its retries are exhausted, and nothing else.
pub handle-contended {ℓ} :
    {W : Type ℓ} (services : Services W) (command : DeclareServiceScopes) (d : ScopeDeclaration)
    (w : W)
    → IsContended services command
    → Messages.validate command ≡ ok d
    → (w' : W) × (handle services command w ≡ some (err (conflict_retries_exhausted 5), w'))
unfolding handle
handle-contended services command d w contended h =
    handle_turns-contended services command max_attempts d w contended h
