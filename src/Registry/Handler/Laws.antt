-- ===== src/Registry/Handler/Laws.antt =====
-- What `judge_declaration` does to the registry, for one command and for a history of commands.
use br_rust_common.Base.{
  ◌⊎◌, Option-cases, List, [], ◌∷◌, Option, none, some, ◌≡◌, refl, ok, arith, if◌then◌else◌, map,
  contains, Result-cases, inl, inr,
}
use br_rust_common.Scope.Error.{ScopeDeclarationError}
use br_rust_common.Scope.ServiceKey.{ServiceKey}
use br_rust_common.Scope.ScopeKey.{ScopeKey, scope_key_Eq}
use br_rust_common.Scope.Declaration.{ScopeDeclaration}
use br_rust_common.Scope.Raw.Laws.{validate-eq-ok_iff, IsDeclaration}
use br_rust_common.Scope.Messages
use br_rust_common.Scope.Messages.{DeclareServiceScopes}
use br_rust_common.Registry.Service.{RejectedIdentity, from_raw_key}
use br_rust_common.Registry.Event.{CommandResult}
use br_rust_common.Registry.State.{ScopeRegistry, owner_of}
use br_rust_common.Registry.State.Lookup.{owner_in-is_owned_by, is_owned_by_unique}
use br_rust_common.Registry.State.Valid.{scope_of, IsRegistry, All-OwnsPrefix}
use br_rust_common.Registry.State.Register.{register_declaration-accepts, declared-is_owned_by}
use br_rust_common.Registry.State.Events.{register_declaration-refused}
use br_rust_common.Registry.Handler.{DeclarationOutcome, accepted, rejected, judge_declaration}

-- A validated declaration is what the registry can take.
validated :
    (command : DeclareServiceScopes) (d : ScopeDeclaration)
    → Messages.validate command ≡ ok d
    → IsDeclaration d
unfolding Messages.validate
validated command d h = ((validate-eq-ok_iff command.declaration d).0 h).0

-- A rejection, whatever its cause and whatever the registry, leaves the registry as it was.
pub judge_declaration-rejected :
    (registry after : ScopeRegistry) (command : DeclareServiceScopes) (identity : RejectedIdentity)
    (reason : ScopeDeclarationError)
    → judge_declaration registry command ≡ some (after, rejected identity reason)
    → after ≡ registry
unfolding judge_declaration
judge_declaration-rejected registry after command identity reason h =
    elim (Result-cases (Messages.validate command)) [
      | inr (e, p) ↦ ground arith
      | inl (d, p) ↦ ground (arith, register_declaration-refused registry after d reason)
    ]

-- What one judgement of a well-formed registry gives.
record Judged (registry : ScopeRegistry) (command : DeclareServiceScopes) : Type 0 where
  after : ScopeRegistry
  outcome : DeclarationOutcome
  call : judge_declaration registry command ≡ some (after, outcome)
  valid : IsRegistry after
  kept : (q : ScopeKey) (o : ServiceKey) → owner_of registry q ≡ some o → owner_of after q ≡ some o

owner_kept :
    (registry after : ScopeRegistry) (d : ScopeDeclaration) (q : ScopeKey) (o : ServiceKey)
    → IsRegistry registry
    → IsDeclaration d
    → owner_of after q
      ≡ (if contains (map scope_of d.scopes) q then some d.manifest.key else owner_of registry q)
    → owner_of registry q ≡ some o
    → owner_of after q ≡ some o
unfolding owner_of
owner_kept registry after d q o v w e h = ground (
  arith,
  owner_in-is_owned_by registry.services q o (All-OwnsPrefix registry.services v.each) h,
  declared-is_owned_by d.scopes d.manifest.key q w.consistent.owned,
  is_owned_by_unique q o d.manifest.key,
)

judge_declaration-Judged :
    (registry : ScopeRegistry) (command : DeclareServiceScopes)
    → IsRegistry registry
    → Judged registry command
judge_declaration-Judged registry command v = elim (Result-cases (Messages.validate command)) [
  | inr (e, p) ↦ record {
    after = registry;
    outcome = rejected (from_raw_key command.declaration.manifest.key) e;
    call = unfold judge_declaration in ground arith;
    valid = v;
    kept = λ q o h. h;
  }
  | inl (d, p) ↦
      let w = validated command d p in
      let (after, result, c, av, owners) = register_declaration-accepts registry d v w.consistent in
      record {
        after = after;
        outcome = accepted d.manifest.key result;
        call = unfold judge_declaration in ground (arith, c);
        valid = av;
        kept = λ q o h. owner_kept registry after d q o v w (owners q) h;
      }
]

pub judge_declaration_total :
    (registry : ScopeRegistry) (command : DeclareServiceScopes)
    → IsRegistry registry
    → (out : ScopeRegistry × DeclarationOutcome) × (judge_declaration registry command ≡ some out)
judge_declaration_total registry command v =
    let j = judge_declaration-Judged registry command v in ((j.after, j.outcome), j.call)

-- A command that validates, put to a well-formed registry, is accepted for the service that its
-- declaration names: the conflict with another service's scope never arises.
pub judge_declaration-accepted :
    (registry : ScopeRegistry) (command : DeclareServiceScopes) (d : ScopeDeclaration)
    → IsRegistry registry
    → Messages.validate command ≡ ok d
    → (after : ScopeRegistry) × (result : CommandResult) × (judge_declaration registry command
        ≡ some (after, accepted d.manifest.key result))
      × IsRegistry after
unfolding judge_declaration
judge_declaration-accepted registry command d v h =
    let w = validated command d h in
    let (after, result, c, av, owners) = register_declaration-accepts registry d v w.consistent in
    (after, result, ground (arith, c), av)

-- The registry after a history of commands; `none` if one of them panics.
unfoldable pub judge_all : ScopeRegistry → List DeclareServiceScopes → Option ScopeRegistry
judge_all registry [] = some registry
judge_all registry (command ∷ commands) = elim (judge_declaration registry command) [
  | none ↦ none
  | some (after, outcome) ↦ judge_all after commands
]

owner_stays :
    (a b c : ScopeRegistry) (q : ScopeKey)
    → ((o : ServiceKey) → owner_of a q ≡ some o → owner_of b q ≡ some o)
    → (owner_of b q ≡ none) ⊎ (owner_of c q ≡ owner_of b q)
    → (owner_of a q ≡ none) ⊎ (owner_of c q ≡ owner_of a q)
owner_stays a b c q f s = elim (Option-cases (owner_of a q)) [
  | inl e ↦ inl e
  | inr (o, e) ↦ inr (ground (arith, f o e, s))
]

-- From a well-formed registry no history of commands panics, the registry stays well-formed, and
-- a scope key that has an owner keeps it.
pub judge_all-IsRegistry :
    (registry : ScopeRegistry) (commands : List DeclareServiceScopes)
    → IsRegistry registry
    → (after : ScopeRegistry) × (judge_all registry commands ≡ some after)
      × IsRegistry after
      × ((q : ScopeKey) → (owner_of registry q ≡ none) ⊎ (owner_of after q ≡ owner_of registry q))
unfolding judge_all
judge_all-IsRegistry registry [] v = (registry, refl, v, λ q. inr refl)
judge_all-IsRegistry registry (command ∷ commands) v =
    let j = judge_declaration-Judged registry command v in
    let (after, c, av, kept) = judge_all-IsRegistry j.after commands j.valid in
    (
      after,
      ground (arith, j.call, c),
      av,
      λ q. owner_stays registry j.after after q (λ o h. j.kept q o h) (kept q),
    )
