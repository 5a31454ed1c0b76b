-- ===== src/Auth/Cookie/Laws.antt =====
-- crates/br-core-auth/src/session_cookie.rs: the byte tests of the loop against prefixes, and the
-- loop against the list of the values.
use br_rust_common.Base.{
  Bool, Text, List, [], ◌∷◌, Option, none, some, length, drop, ◌+◌, split, trim, strip_prefix,
  if◌then◌else◌, ◌≡◌, refl, arith, Bool-cases, inl, inr, ◌++◌, ◌↔◌, ◌≢◌, append_assoc, ◌∙◌, sym,
  strip_prefix-eq-some_iff,
}
use br_rust_common.Auth.Cookie.{
  is_session_pair, session_value, session_values, find_session, extract_session_id, only, nonempty,
  session_cookie_name,
}

session_value-is_session_pair :
    (name pair : Text)
    → session_value name pair
      ≡ (if is_session_pair name pair then some (drop (length name + 1) pair) else none)
unfolding session_value is_session_pair strip_prefix
session_value-is_session_pair [] [] = refl
session_value-is_session_pair [] (d ∷ []) = ground arith
session_value-is_session_pair [] (d ∷ e ∷ pair) = ground arith
session_value-is_session_pair (c ∷ name) [] = ground arith
session_value-is_session_pair (c ∷ name) (d ∷ pair) =
    ground (arith, session_value-is_session_pair name pair)

-- What the loop answers when it has found a value, and when it has not.
abbrev after : Option Text → List Text → Option Text
after none vs = only vs
after (some v) vs = only (v ∷ vs)

after-cons :
    (found : Option Text) (v : Text) (vs : List Text)
    → elim found [ some _ ↦ none | none ↦ after (some v) vs ] ≡ after found (v ∷ vs)
after-cons none v vs = refl
after-cons (some w) v vs = refl

find_session-after :
    (name : Text) (found : Option Text) (pairs : List Text)
    → find_session name found pairs ≡ after found (session_values name pairs)
unfolding find_session session_values
find_session-after name none [] = refl
find_session-after name (some v) [] = refl
find_session-after name found (raw ∷ pairs) =
    let pair = trim raw in
    let value = session_value-is_session_pair name pair in
    elim (Bool-cases (is_session_pair name pair)) [
      | inl h ↦ ground (
        arith,
        value,
        h,
        after-cons found,
        find_session-after name (some (drop (length name + 1) pair)) pairs,
      )
      | inr h ↦ ground (arith, value, h, find_session-after name found pairs)
    ]

-- The session id of a cookie header is the value of the only pair whose text, trimmed, is the
-- cookie's name, `=` and a value that is not empty: with no such pair, or more than one, there is
-- none.
pub extract_session_id-only :
    (cookie_header : Text) (secure : Bool)
    → extract_session_id cookie_header secure
      ≡ only (session_values (session_cookie_name secure) (split b';' cookie_header))
unfolding extract_session_id
extract_session_id-only cookie_header secure =
    find_session-after (session_cookie_name secure) none (split b';' cookie_header)

nonempty_sound : (o : Option Text) (v : Text) → nonempty o ≡ some v → (o ≡ some v) × (v ≢ [])
nonempty_sound none v h = ground arith
nonempty_sound (some []) v h = ground arith
nonempty_sound (some (c ∷ w)) v h = ground arith

nonempty_complete : (v : Text) → v ≢ [] → nonempty (some v) ≡ some v
nonempty_complete [] h = elim (h refl) [ ]
nonempty_complete (c ∷ v) h = refl

-- The value of a pair, by its text.
pub session_value-eq-some_iff :
    (name pair v : Text)
    → (session_value name pair ≡ some v) ↔ ((pair ≡ name ++ b'=' ∷ v) × (v ≢ []))
unfolding session_value
session_value-eq-some_iff name pair v =
    let cut = strip_prefix-eq-some_iff pair (name ++ b'=' ∷ []) v in
    let glue = append_assoc name (b'=' ∷ []) v in
    (
      λ h.
          let (e, n) = nonempty_sound (strip_prefix pair (name ++ b'=' ∷ [])) v h in
          (cut.0 e ∙ glue, n),
      λ (e, n). rw (cut.1 (e ∙ sym glue)) (nonempty_complete v n),
    )
