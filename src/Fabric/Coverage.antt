-- ===== src/Fabric/Coverage.antt =====
-- crates/br-util-nats-fabric/src/consumer/coverage.rs: does a stream's configuration cover a
-- subject?
pub mod Laws
use br_rust_common.Base.{
  Bool, true, false, not, ◌&&◌, ◌||◌, Text, bytes, List, [], ◌∷◌, ◌==◌, text_Eq, any, is_empty,
  split, if◌then◌else◌,
}

-- `subject_tokens.next()`: the first token, and what the rest of the loop says of the others.
abbrev next_token : List Text → (Text → List Text → Bool) → Bool
next_token [] k = false
next_token (token ∷ subject) k = k token subject

-- The loop over the pattern's tokens, and the test after it.
unfoldable pub match_tokens : List Text → List Text → Bool
match_tokens [] subject = is_empty subject
match_tokens (token ∷ pattern) subject =
    let go = match_tokens pattern in
    if token == bytes ">"
    then is_empty pattern && not (is_empty subject)
    else if token == bytes "*"
    then next_token subject (λ _ rest. go rest)
    else next_token subject (λ t rest. if t == token then go rest else false)

unfoldable pub pattern_covers : Text → Text → Bool
pattern_covers pattern subject =
    if is_empty pattern || is_empty subject
    then false
    else match_tokens (split b'.' pattern) (split b'.' subject)

unfoldable pub subject_covered : List Text → Text → Bool
subject_covered configured subject = any (λ pattern. pattern_covers pattern subject) configured
