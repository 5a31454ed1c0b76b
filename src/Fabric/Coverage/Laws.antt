-- ===== src/Fabric/Coverage/Laws.antt =====
-- crates/br-util-nats-fabric/src/consumer/coverage.rs: the matcher, and the relation that the wildcards stand for.
use br_rust_common.Base.{
  Bool, true, false, ◌||◌, Text, bytes, List, [], ◌∷◌, ◌++◌, ◌==◌, text_Eq, any, is_empty, split,
  ◌≡◌, ◌≢◌, ◌↔◌, refl, arith, Bool-cases, inl, inr, any-append, ◌∙◌,
}
use br_rust_common.Coords.{EventCoords}
use br_rust_common.Coords.Laws.{IsEventCoords}
use br_rust_common.Fabric.Subject.{event_subject, subject, evt_token, integration_prefix}
use br_rust_common.Fabric.Decimal.{decimal}
use br_rust_common.Fabric.Subject.Laws.{split-subject}
use br_rust_common.Fabric.Coverage.{match_tokens, pattern_covers, subject_covered}

-- `*` stands for one token, a last `>` for one or more, and any other token for itself.
pub data Covers : List Text → List Text → Type 0 where
  done : Covers [] []
  tail :
      (wild token : Text) (rest : List Text) → wild ≡ bytes ">" → Covers (wild ∷ []) (token ∷ rest)
  one :
      (wild token : Text) (pattern rest : List Text)
      → wild ≡ bytes "*"
      → Covers pattern rest
      → Covers (wild ∷ pattern) (token ∷ rest)
  same :
      (token : Text) (pattern rest : List Text)
      → token ≢ bytes ">"
      → token ≢ bytes "*"
      → Covers pattern rest
      → Covers (token ∷ pattern) (token ∷ rest)

match_tokens_sound :
    (pattern subject : List Text) → match_tokens pattern subject ≡ true → Covers pattern subject
unfolding match_tokens
match_tokens_sound [] [] h = done
match_tokens_sound [] (t ∷ subject) h = cc
match_tokens_sound (p ∷ []) [] h = ground (arith)
match_tokens_sound (p ∷ q ∷ pattern) [] h = ground (arith)
match_tokens_sound (p ∷ pattern) (t ∷ subject) h = elim (Bool-cases (p == bytes ">")) [
  | inl e ↦ last pattern ((text_Eq.beq_iff p (bytes ">")).0 e) (ground arith)
  | inr n ↦ elim (Bool-cases (p == bytes "*")) [
    | inl e ↦
        one p t pattern subject ((text_Eq.beq_iff p (bytes "*")).0 e)
          (match_tokens_sound pattern subject (ground arith))
    | inr m ↦ elim (Bool-cases (t == p)) [
      | inr o ↦ ground arith
      | inl o ↦
          literal ((text_Eq.beq_iff t p).0 o) (λ g. ground (arith, text_Eq.beq_iff p (bytes ">")))
            (λ g. ground (arith, text_Eq.beq_iff p (bytes "*")))
            (match_tokens_sound pattern subject (ground arith))
    ]
  ]
]
  where
    last : (ps : List Text) → p ≡ bytes ">" → is_empty ps ≡ true → Covers (p ∷ ps) (t ∷ subject)
    last [] e i = tail p t subject e
    last (q ∷ ps) e i = cc

    literal :
        t ≡ p
        → p ≢ bytes ">"
        → p ≢ bytes "*"
        → Covers pattern subject
        → Covers (p ∷ pattern) (t ∷ subject)
    literal e n m c = rw e (same p pattern subject n m c)

match_tokens_complete :
    {pattern subject : List Text} → Covers pattern subject → match_tokens pattern subject ≡ true
unfolding match_tokens
match_tokens_complete done = refl
match_tokens_complete (tail wild token rest e) = ground (arith, text_Eq.beq_iff wild (bytes ">"))
match_tokens_complete (one wild token pattern rest e c) = ground (
  arith,
  match_tokens_complete c,
  text_Eq.beq_iff wild (bytes ">"),
  text_Eq.beq_iff wild (bytes "*"),
)
match_tokens_complete (same token pattern rest n m c) = ground (
  arith,
  match_tokens_complete c,
  text_Eq.beq_iff token token,
  text_Eq.beq_iff token (bytes ">"),
  text_Eq.beq_iff token (bytes "*"),
)

-- A pattern covers a subject exactly when neither is empty and their tokens match by the wildcards.
pub pattern_covers_iff :
    (pattern subject : Text)
    → (pattern_covers pattern subject ≡ true)
      ↔ ((pattern ≢ []) × (subject ≢ []) × Covers (split b'.' pattern) (split b'.' subject))
unfolding pattern_covers
pattern_covers_iff [] subject = ground arith
pattern_covers_iff (c ∷ pattern) [] = ground arith
pattern_covers_iff (c ∷ pattern) (d ∷ subject) = (
  λ h. (
    (λ e. cc),
    (λ e. cc),
    match_tokens_sound (split b'.' (c ∷ pattern)) (split b'.' (d ∷ subject)) h,
  ),
  λ (_, _, k). match_tokens_complete k,
)

event_subject-nonempty : (c : EventCoords) → is_empty (event_subject c) ≡ false
unfolding event_subject subject
event_subject-nonempty c = refl

event_segments : EventCoords → List Text
event_segments c =
    integration_prefix
    ∷ evt_token
    ∷ c.producer.text
    ∷ c.aggregate.text
    ∷ c.fact.text
    ∷ (b'v' ∷ decimal c.version)
    ∷ []

split-event_subject :
    (c : EventCoords) → IsEventCoords c → split b'.' (event_subject c) ≡ event_segments c
unfolding event_subject event_segments
split-event_subject c v =
    split-subject evt_token c.producer.text c.aggregate.text c.fact.text c.version refl
      v.producer_ok v.aggregate_ok v.fact_ok v.version_ok

pattern_covers-segments :
    (pattern : Text) (c : EventCoords)
    → IsEventCoords c
    → is_empty pattern ≡ false
    → pattern_covers pattern (event_subject c)
      ≡ match_tokens (split b'.' pattern) (event_segments c)
unfolding pattern_covers
pattern_covers-segments pattern c v n =
    rw (n, event_subject-nonempty c, split-event_subject c v) refl

evt_binding_covers :
    (c : EventCoords)
    → IsEventCoords c
    → pattern_covers (bytes "integration.evt.>") (event_subject c) ≡ true
unfolding match_tokens split event_segments
evt_binding_covers c v = pattern_covers-segments (bytes "integration.evt.>") c v refl

cmd_binding_misses :
    (c : EventCoords)
    → IsEventCoords c
    → pattern_covers (bytes "integration.cmd.>") (event_subject c) ≡ false
unfolding match_tokens split event_segments
cmd_binding_misses c v = pattern_covers-segments (bytes "integration.cmd.>") c v refl

-- The subject of valid event coordinates is covered by a stream that binds `integration.evt.>`,
-- wherever that stands among its patterns, and not by one that binds `integration.cmd.>` alone.
pub subject_covered-event_subject :
    (c : EventCoords) (before after : List Text)
    → IsEventCoords c
    → (subject_covered (before ++ bytes "integration.evt.>" ∷ after) (event_subject c) ≡ true)
      × (subject_covered (bytes "integration.cmd.>" ∷ []) (event_subject c) ≡ false)
unfolding subject_covered
subject_covered-event_subject c before after v = (
  any-append (λ pattern. pattern_covers pattern (event_subject c)) before
        (bytes "integration.evt.>" ∷ after)
      ∙ rw (evt_binding_covers c v)
          (or-true (any (λ pattern. pattern_covers pattern (event_subject c)) before)),
  rw (cmd_binding_misses c v) refl,
)
  where
    or-true : (b : Bool) → (b || true) ≡ true
    or-true true = refl
    or-true false = refl
