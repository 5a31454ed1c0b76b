-- ===== src/Auth/Tests.antt =====
-- Runs of authentication on small inputs.
use br_rust_common.Base.{
  ℕ, ◌+◌, false, Text, bytes, List, [], ◌∷◌, Option, none, some, ok, contains, split, ◌≡◌, ◌⊎◌,
  refl, arith, trim, strip_prefix,
}
use br_rust_common.Auth.Admit.{
  HeaderCodec, Response, text_unauthorized, IsCarried, admit, admit-cases,
}
use br_rust_common.Auth.Cookie.{
  session_cookie_name, extract_session_id, find_session, is_session_pair, only, session_values,
}
use br_rust_common.Auth.Cookie.Laws.{extract_session_id-only}
use br_rust_common.Auth.Passport.{Passport, service_passport, has_scope, scopes}
use br_rust_common.Auth.Passport.Laws.{has_scope-scopes}
use br_rust_common.Scope.ScopeKey.{ScopeKey, scope_key_Eq}
use br_rust_common.Scope.ScopeKey.Laws.{IsKey}

-- A JSON value is a list of texts here.
abbrev read_strings : List Text → Option (List Text)
read_strings texts = some texts

abbrev robot : Passport (List Text)
robot =
    service_passport 5
      (record { map = (bytes "scopes", bytes "billing:read" ∷ bytes "broken" ∷ []) ∷ [] })

abbrev billing_read : ScopeKey
billing_read = record { raw = bytes "billing:read"; colon = 7 }

billing_read-IsKey : IsKey billing_read
billing_read-IsKey = record {
  service = bytes "billing";
  capability = bytes "read";
  split_at = refl;
  colon_at = refl;
  total = omega arith;
  service_ok = record { nonempty = λ h. ground (arith, h); short = omega arith; charset = refl };
  capability_ok = record { nonempty = λ h. ground (arith, h); short = omega arith; charset = refl };
}

has_scope-scopes_example :
    has_scope read_strings robot billing_read ≡ contains (scopes read_strings robot) billing_read
has_scope-scopes_example = has_scope-scopes read_strings robot billing_read billing_read-IsKey

one_session : extract_session_id (bytes "a=1; session_id=xy ;session_id=") false ≡ some (bytes "xy")
unfolding extract_session_id find_session is_session_pair session_cookie_name split trim
    strip_prefix
one_session = refl

two_sessions : extract_session_id (bytes "session_id=x; session_id=x") false ≡ none
unfolding extract_session_id find_session is_session_pair session_cookie_name split trim
    strip_prefix
two_sessions = refl

extract_session_id-only_example :
    extract_session_id (bytes "a=1; session_id=xy") false
    ≡ only (session_values (session_cookie_name false) (split b';' (bytes "a=1; session_id=xy")))
extract_session_id-only_example = extract_session_id-only (bytes "a=1; session_id=xy") false

-- Every header decodes to the robot's passport.
abbrev robot_codec : HeaderCodec (List Text)
robot_codec = record {
  to_json = λ p. bytes "{}";
  from_json = λ s. ok robot;
  encode = λ s. s;
  decode = λ s. ok s;
}

abbrev welcome : Passport (List Text) → Response
welcome p = record { status = 200; content_type = none; body = bytes "ok" }

-- The handler counts its calls.
abbrev counted : Passport (List Text) → ℕ → Response × ℕ
counted p calls = (welcome p, calls + 1)

abbrev refused : ℕ → Response × ℕ
refused calls = (text_unauthorized, calls)

admit-cases_example :
    ((p : Passport (List Text)) × IsCarried robot_codec (some (some (bytes "e30="))) p
      × (admit robot_codec counted refused (some (some (bytes "e30="))) ≡ counted p))
    ⊎ (((p : Passport (List Text)) → ¬ (IsCarried robot_codec (some (some (bytes "e30="))) p))
        × (admit robot_codec counted refused (some (some (bytes "e30="))) ≡ refused))
admit-cases_example = admit-cases robot_codec counted refused (some (some (bytes "e30=")))
