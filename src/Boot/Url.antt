-- ===== src/Boot/Url.antt =====
-- crates/br-util-boot/src/database_url.rs and nats_url.rs: the two URLs. The URL parser is an
-- argument, with its setters.
pub mod Redacted
use br_rust_common.Base.{
  Bool, true, false, not, ◌&&◌, ◌||◌, Text, bytes, List, [], ◌∷◌, ◌++◌, Option, none, some, Result,
  ok, err, ◌==◌, text_Eq, is_empty, any, map, map_err, ◌>>=◌, if◌then◌else◌, ◌≡◌, ◌≢◌, refl, arith,
  Result-cases, Bool-cases, inl, inr, ◌⊎◌,
}
use br_rust_common.Boot.Environment.{InvalidValue, not_url, bad_scheme, no_host}

-- What the `url` crate gives of a URL; a setter that refuses gives `none`.
pub record UrlParser {ℓ} (U : Type ℓ) : Type ℓ where
  pub parse : Text → Result U Text
  pub scheme : U → Text
  pub host_str : U → Option Text
  pub username : U → Text
  pub password : U → Option Text
  pub set_password : U → Option Text → Option U
  pub set_username : U → Text → Option U
  pub query_pairs : U → List (Text × Text)
  pub set_query_pairs : U → List (Text × Text) → U
  pub serialize : U → Text

pub record DatabaseUrl {ℓ} (U : Type ℓ) : Type ℓ where
  pub raw : Text
  pub parsed : U

pub record NatsUrl {ℓ} (U : Type ℓ) : Type ℓ where
  pub raw : Text
  pub parsed : U

abbrev pub redacted_mark : Text
redacted_mark = bytes "***"

-- `host_str().is_none_or(str::is_empty)`.
abbrev names_no_host : Option Text → Bool
names_no_host none = true
names_no_host (some host) = is_empty host

-- The value of a query parameter, hidden when it is the password.
unfoldable pub hide_password : Text × Text → Text × Text
hide_password (key, value) = (key, if key == bytes "password" then redacted_mark else value)

abbrev pub is_some {κ} : {A : Type κ} → Option A → Bool
is_some none = false
is_some (some _) = true

module _ {ℓ} {U : Type ℓ} (url : UrlParser U) where
  abbrev is_postgres : Text → Bool
  is_postgres scheme = scheme == bytes "postgres" || scheme == bytes "postgresql"

  abbrev is_nats : Text → Bool
  is_nats scheme =
      scheme == bytes "nats"
      || (scheme == bytes "tls" || (scheme == bytes "ws" || scheme == bytes "wss"))

  unfoldable pub parse_database_url : Text → Result (DatabaseUrl U) InvalidValue
  parse_database_url s = map_err not_url (url.parse s) >>= λ parsed.
      if not (is_postgres (url.scheme parsed))
      then err (bad_scheme (url.scheme parsed))
      else if names_no_host (url.host_str parsed)
      then err no_host
      else ok (record { raw = s; parsed = parsed })

  unfoldable pub parse_nats_url : Text → Result (NatsUrl U) InvalidValue
  parse_nats_url s = map_err not_url (url.parse s) >>= λ parsed.
      if not (is_nats (url.scheme parsed))
      then err (bad_scheme (url.scheme parsed))
      else if names_no_host (url.host_str parsed)
      then err no_host
      else ok (record { raw = s; parsed = parsed })

  abbrev without_credentials : U → Text
  without_credentials parsed = url.scheme parsed ++ (bytes "://" ++ redacted_mark)

  unfoldable pub redact_query : U → U
  redact_query u =
      if any (λ pair. pair.0 == bytes "password") (url.query_pairs u)
      then url.set_query_pairs u (map hide_password (url.query_pairs u))
      else u

  unfoldable pub redacted_database_url : DatabaseUrl U → Text
  redacted_database_url d =
      if is_some (url.password d.parsed)
      then elim (url.set_password d.parsed (some redacted_mark)) [
        | none ↦ without_credentials d.parsed
        | some hidden ↦ url.serialize (redact_query hidden)
      ]
      else url.serialize (redact_query d.parsed)

  unfoldable pub redacted_nats_url : NatsUrl U → Text
  redacted_nats_url n =
      if not (is_empty (url.username n.parsed)) || is_some (url.password n.parsed)
      then elim (url.set_password n.parsed none) [
        | none ↦ without_credentials n.parsed
        | some bare ↦ elim (url.set_username bare redacted_mark) [
          | none ↦ without_credentials n.parsed
          | some hidden ↦ url.serialize hidden
        ]
      ]
      else url.serialize n.parsed

  -- What the setters of a URL promise of the texts that are set here, `***` and none: neither is
  -- percent-encoded, a setter leaves the other parts, and the parameters that are written are read
  -- back.
  pub record Setters : Type ℓ where
    pub password_hidden :
        (u v : U)
        → url.set_password u (some redacted_mark) ≡ some v
        → url.password v ≡ some redacted_mark
    pub password_cleared : (u v : U) → url.set_password u none ≡ some v → url.password v ≡ none
    pub username_hidden :
        (u v : U) → url.set_username u redacted_mark ≡ some v → url.username v ≡ redacted_mark
    pub username_password :
        (u v : U) → url.set_username u redacted_mark ≡ some v → url.password v ≡ url.password u
    pub query_set :
        (u : U)
        → url.query_pairs (url.set_query_pairs u (map hide_password (url.query_pairs u)))
          ≡ map hide_password (url.query_pairs u)
    pub query_password :
        (u : U)
        → url.password (url.set_query_pairs u (map hide_password (url.query_pairs u)))
          ≡ url.password u
