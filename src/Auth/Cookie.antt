-- ===== src/Auth/Cookie.antt =====
-- crates/br-core-auth/src/session_cookie.rs: the session id of a `Cookie` header.
pub mod Laws
use br_rust_common.Base.{
  ℕ, Bool, true, false, ◌&&◌, Text, bytes, List, [], ◌∷◌, ◌++◌, Option, none, some, ltb, nat_eq,
  length, take, drop, ◌+◌, ◌==◌, text_Eq, split, trim, strip_prefix, strip_prefix-eq-some_iff,
  if◌then◌else◌, ◌≡◌, ◌↔◌, refl, arith, map,
}

unfoldable pub session_cookie_name : Bool → Text
session_cookie_name secure = if secure then bytes "__Host-session_id" else bytes "session_id"

-- `pair.as_bytes()[index] == byte`, where the index is in range.
abbrev byte_at : Text → ℕ → ℕ → Bool
byte_at pair index byte = elim (drop index pair) [ c ∷ _ ↦ nat_eq c byte | [] ↦ false ]

unfoldable pub is_session_pair : Text → Text → Bool
is_session_pair name pair =
    ltb (length name + 1) (length pair)
    && (byte_at pair (length name) b'=' && take (length name) pair == name)

-- The loop over the pairs, with `found`.
unfoldable pub find_session : Text → Option Text → List Text → Option Text
find_session name found [] = found
find_session name found (raw ∷ pairs) =
    let pair = trim raw in
    let rest = find_session name (some (drop (length name + 1) pair)) pairs in
    let other = find_session name found pairs in
    if is_session_pair name pair then elim found [ some _ ↦ none | none ↦ rest ] else other

unfoldable pub extract_session_id : Text → Bool → Option Text
extract_session_id cookie_header secure =
    find_session (session_cookie_name secure) none (split b';' cookie_header)

-- A description of the same by prefixes: the values, not empty, of the pairs `name=value`.
abbrev pub nonempty : Option Text → Option Text
nonempty (some (c ∷ v)) = some (c ∷ v)
nonempty _ = none

unfoldable pub session_value : Text → Text → Option Text
session_value name pair = nonempty (strip_prefix pair (name ++ b'=' ∷ []))

unfoldable pub session_values : Text → List Text → List Text
session_values name [] = []
session_values name (raw ∷ pairs) =
    let rest = session_values name pairs in
    elim (session_value name (trim raw)) [ some v ↦ v ∷ rest | none ↦ rest ]

abbrev pub only : List Text → Option Text
only (v ∷ []) = some v
only _ = none
