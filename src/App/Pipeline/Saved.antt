-- ===== src/App/Pipeline/Saved.antt =====
-- crates/br-identity-app/src/pipeline.rs: what an accepted command has done.
use br_rust_common.Base.{
  ℕ, zero, suc, some, Option, ok, arith, ◌≡◌, refl, ap, Result-cases, Option-cases, ◌∙◌, inl, inr,
}
use br_rust_common.Scope.Messages.{DeclareServiceScopes}
use br_rust_common.Scope.Error.{ScopeDeclarationError, scope_owned_by_another_service}
use br_rust_common.Scope.ServiceKey.{ServiceKey}
use br_rust_common.Registry.Service.{RejectedIdentity, service}
use br_rust_common.Registry.Event.{CommandResult}
use br_rust_common.Registry.State.{ScopeRegistry}
use br_rust_common.Registry.Handler.{DeclarationOutcome, accepted, rejected, judge_declaration}
use br_rust_common.App.Error.{version_conflict, SaveOutcome, persisted, scope_conflict}
use br_rust_common.App.Pipeline.{
  reject, after_save, returned, Services, Turn, finished, retried, turn, after_judgement,
  after_save, handle_turns,
}
use br_rust_common.App.Pipeline.Total.{reply_service_total, Turn-cases}

-- The worlds that turns which met another writer lead to.
pub data Retries {ℓ} {W : Type ℓ} (services : Services W) (command : DeclareServiceScopes)
    : W → W → Type ℓ where
  stays : (w : W) → Retries services command w w
  again :
      (w v u : W)
      → turn services command w ≡ some (retried, v)
      → Retries services command v u
      → Retries services command w u

module _ {ℓ} {W : Type ℓ} (services : Services W) (command : DeclareServiceScopes) (k : ServiceKey)
    (result : CommandResult) where
  -- From `start`, after turns that met another writer, the pipeline loaded a registry, judged the command against it with the outcome that it is
  -- accepted, saved what the registry became at the version that was loaded, and then sent the
  -- confirmation, which was its last step.
  pub record IsSaved (start w : W) : Type ℓ where
    pub before : W
    pub reached : Retries services command start before
    pub loaded : ScopeRegistry
    pub version : ℕ
    pub after : ScopeRegistry
    pub load : (services.load before).0 ≡ ok (loaded, version)
    pub verdict : judge_declaration loaded command ≡ some (after, accepted k result)
    pub save : (services.save after version (services.load before).1).0 ≡ ok persisted
    pub confirmation :
        services.publish_accepted command k (services.save after version (services.load before).1).1
        ≡ (ok tt, w)

  abbrev accepts : W → Option (Turn × W)
  accepts w = some (finished (ok (accepted k result)), w)

  reject-accepts :
      (identity : RejectedIdentity) (reason : ScopeDeclarationError) (w w' : W)
      → ¬ (returned (reject services command identity reason w) ≡ accepts w')
  unfolding reject
  reject-accepts identity reason w w' h =
      let (r, e) = reply_service_total services identity in
      elim (Result-cases (services.publish_rejected command r reason w).0) [
        | inl (u, p) ↦ ground (arith, h, e, p)
        | inr (x, p) ↦ ground (arith, h, e, p)
      ]

  after_save-accepts :
      (j : ServiceKey) (given : CommandResult) (outcome : SaveOutcome) (w w' : W)
      → after_save services command j given outcome w ≡ accepts w'
      → (outcome ≡ persisted)
        × (accepted j given ≡ accepted k result)
        × (services.publish_accepted command k w ≡ (ok tt, w'))
  unfolding after_save
  after_save-accepts j given persisted w w' h =
      elim (Result-cases (services.publish_accepted command j w).0) [
        | inr (x, p) ↦ ground (arith, h, p)
        | inl (u, p) ↦
            let q : j ≡ k = ground (arith, h, p) in
            let at_j : services.publish_accepted command j w ≡ (ok tt, w') = ground (arith, h, p) in
            (refl, ground (arith, h, p), rw (← q) at_j)
      ]
  after_save-accepts j given version_conflict w w' h = ground (arith, h)
  after_save-accepts j given (scope_conflict scope_key owner) w w' h =
      elim (reject-accepts (service j) (scope_owned_by_another_service scope_key owner) w w' h) [ ]

  after_judgement-accepts :
      (version : ℕ) (after : ScopeRegistry) (outcome : DeclarationOutcome) (w w' : W)
      → after_judgement services command version after outcome w ≡ accepts w'
      → (outcome ≡ accepted k result)
        × ((services.save after version w).0 ≡ ok persisted)
        × (services.publish_accepted command k (services.save after version w).1 ≡ (ok tt, w'))
  unfolding after_judgement
  after_judgement-accepts version after (rejected identity reason) w w' h =
      elim (reject-accepts identity reason w w' h) [ ]
  after_judgement-accepts version after (accepted j given) w w' h =
      elim (Result-cases (services.save after version w).0) [
        | inr (x, s) ↦ ground (arith, h, s)
        | inl (outcome, s) ↦
            let (o, q, p) =
              after_save-accepts j given outcome (services.save after version w).1 w'
                (rw (s, after_judgement) at h) in
            (q, s ∙ ap ok o, p)
      ]

  turn-IsSaved : (w w' : W) → turn services command w ≡ accepts w' → IsSaved w w'
  unfolding turn
  turn-IsSaved w w' h = elim (Result-cases (services.load w).0) [
    | inr (x, l) ↦ ground (arith, h, l)
    | inl (head, l) ↦ elim (Option-cases (judge_declaration head.0 command)) [
      | inl j ↦ ground (arith, h, l, j)
      | inr (out, j) ↦
          let (o, s, p) =
            after_judgement-accepts head.1 out.0 out.1 (services.load w).1 w'
              (rw (l, j, turn) at h) in
          record {
            before = w;
            reached = stays w;
            loaded = head.0;
            version = head.1;
            after = out.0;
            load = l;
            verdict = j ∙ ap (λ a. some (out.0, a)) o;
            save = s;
            confirmation = p;
          }
    ]
  ]

  pub handle_turns-IsSaved :
      (turns : ℕ) (w w' : W)
      → handle_turns services turns command w ≡ some (ok (accepted k result), w')
      → IsSaved w w'
  unfolding handle_turns
  handle_turns-IsSaved zero w w' h = ground (arith, h)
  handle_turns-IsSaved (suc turns) w w' h = elim (Option-cases (turn services command w)) [
    | inl t ↦ ground (arith, h, t)
    | inr (out, t) ↦ elim (Turn-cases services out.0) [
      | inr e ↦
          let saved = handle_turns-IsSaved turns out.1 w' (rw (t, e, handle_turns) at h) in
          record {
            before = saved.before;
            reached = again w out.1 saved.before (rw t (ap (λ o. some (o, out.1)) e)) saved.reached;
            loaded = saved.loaded;
            version = saved.version;
            after = saved.after;
            load = saved.load;
            verdict = saved.verdict;
            save = saved.save;
            confirmation = saved.confirmation;
          }
      | inl (r, e) ↦
          let given : r ≡ ok (accepted k result) = ground (arith, h, t, e) in
          let left : out.1 ≡ w' = ground (arith, h, t, e) in
          turn-IsSaved w w' (ground (arith, t, e, given, left))
    ]
  ]
