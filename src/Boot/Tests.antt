-- ===== src/Boot/Tests.antt =====
-- Runs of the boot environment on small inputs.
use br_rust_common.Base.{
  ℕ, Text, bytes, List, [], ◌∷◌, ◌++◌, Option, none, some, Result, ok, err, ◌==◌, text_Eq, split,
  if◌then◌else◌, ◌≡◌, ◌⊎◌, refl, arith,
}
use br_rust_common.Boot.Environment.{from_str, as_str, prod}
use br_rust_common.Boot.Url.{UrlParser, DatabaseUrl, Setters, redacted_database_url, redacted_mark}
use br_rust_common.Boot.Url.Redacted.{Hides, redacted_database_url-Hides}
use br_rust_common.Boot.Reader.{
  VarError, not_present, missing, empty, judge, required, optional, lookup, parse_var,
}
use br_rust_common.Boot.BootEnv.{from_lookup, from_lookup-Answers, Answers}

-- A URL in parts; the text before the first colon is the scheme.
record Parts : Type 0 where
  scheme : Text
  user : Text
  secret : Option Text
  query : List (Text × Text)

abbrev split_url : List Text → Result Parts Text
split_url (scheme ∷ rest ∷ []) =
    ok (record { scheme = scheme; user = rest; secret = some rest; query = [] })
split_url _ = err (bytes "relative URL without a base")

abbrev parts_parser : UrlParser Parts
parts_parser = record {
  parse = λ s. split_url (split b':' s);
  scheme = λ u. u.scheme;
  host_str = λ u. some (bytes "db");
  username = λ u. u.user;
  password = λ u. u.secret;
  set_password = λ u p. some (record u { secret = p });
  set_username = λ u n. some (record u { user = n });
  query_pairs = λ u. u.query;
  set_query_pairs = λ u q. record u { query = q };
  serialize = λ u. u.scheme;
}

parts_parser-Setters : Setters parts_parser
parts_parser-Setters = record {
  password_hidden = λ u v h. ground (arith, h);
  password_cleared = λ u v h. ground (arith, h);
  username_hidden = λ u v h. ground (arith, h);
  username_password = λ u v h. ground (arith, h);
  query_set = λ u. refl;
  query_password = λ u. refl;
}

abbrev database_url : DatabaseUrl Parts
database_url = record {
  raw = bytes "postgres:secret";
  parsed = record {
    scheme = bytes "postgres";
    user = bytes "app";
    secret = some (bytes "secret");
    query = (bytes "password", bytes "secret") ∷ [];
  };
}

redacted_database_url-Hides_example :
    (redacted_database_url parts_parser database_url
      ≡ bytes "postgres" ++ (bytes "://" ++ redacted_mark))
    ⊎ ((v : Parts) × (redacted_database_url parts_parser database_url ≡ v.scheme)
        × Hides parts_parser parts_parser-Setters v)
redacted_database_url-Hides_example =
    redacted_database_url-Hides parts_parser parts_parser-Setters database_url

-- Only two of the five variables are set, and one of these is empty.
abbrev variables : Text → Result Text VarError
variables var =
    if var == bytes "ENVIRONMENT"
    then ok (bytes "prod")
    else if var == bytes "PORT"
    then ok []
    else err not_present

abbrev no_host_parser : Text → Option Text
no_host_parser raw = some raw

abbrev no_port_parser : Text → Option ℕ
no_port_parser raw = none

three_problems :
    from_lookup parts_parser no_host_parser no_port_parser (bytes "0.0.0.0") variables
    ≡ err (empty (bytes "PORT") ∷ missing (bytes "DATABASE_URL") ∷ missing (bytes "NATS_URL") ∷ [])
unfolding from_lookup required optional lookup parse_var from_str as_str
three_problems = refl

from_lookup-Answers_example :
    Answers {U = Parts}
      (ok prod)
      (ok (bytes "0.0.0.0"))
      (err (empty (bytes "PORT")))
      (err (missing (bytes "DATABASE_URL")))
      (err (missing (bytes "NATS_URL")))
      (from_lookup parts_parser no_host_parser no_port_parser (bytes "0.0.0.0") variables)
unfolding judge from_str as_str
from_lookup-Answers_example =
    from_lookup-Answers parts_parser no_host_parser no_port_parser (bytes "0.0.0.0") variables
