-- ===== src/Postgres/Role.antt =====
-- crates/br-util-postgres/src/role.rs, role_password.rs and grant.rs: the names, the verifiers and
-- the statements. SCRAM is an argument.
pub mod Laws
use br_rust_common.Base.{
  ℕ, Bool, true, false, not, ◌&&◌, ◌||◌, Text, bytes, List, [], ◌∷◌, ◌++◌, Result, ok, err, ◌>>=◌,
  ◌>>◌, ltb, nat_eq, is_empty, length, all, any, has_byte, is_ascii_lowercase, is_ascii_digit,
  is_ascii_alphanumeric, if◌then◌else◌, Option, none, some, strip_prefix, join,
}

pub data PostgresError (D : Type 0) : Type 0 where
  config : Text → PostgresError D
  db : D → PostgresError D
  invalid_role_name : Text → PostgresError D

abbrev pub max_role_name_len : ℕ
max_role_name_len = 63

abbrev pub verifier_prefix : Text
verifier_prefix = bytes "SCRAM-SHA-256$"

abbrev pub role_byte : ℕ → Bool
role_byte c = is_ascii_lowercase c || is_ascii_digit c || nat_eq c b'_'

abbrev pub verifier_byte : ℕ → Bool
verifier_byte c =
    is_ascii_alphanumeric c
    || (nat_eq c b'+'
        || nat_eq c b'/'
        || nat_eq c b'='
        || nat_eq c b'$'
        || nat_eq c b':'
        || nat_eq c b'-')

-- `chars.next()` and the rest of the characters.
abbrev starts_lowercase : Text → Bool
starts_lowercase [] = false
starts_lowercase (c ∷ rest) = is_ascii_lowercase c && all role_byte rest

unfoldable pub is_valid_role_name : Text → Bool
is_valid_role_name name =
    if is_empty name || ltb max_role_name_len (length name) then false else starts_lowercase name

abbrev has_prefix : Text → Text → Bool
has_prefix s prefix = elim (strip_prefix s prefix) [ some _ ↦ true | none ↦ false ]

unfoldable pub is_safe_verifier : Text → Bool
is_safe_verifier verifier = has_prefix verifier verifier_prefix && all verifier_byte verifier

module _ {D : Type 0} where
  unfoldable pub validate_role_name : Text → Result (Unit {0}) (PostgresError D)
  validate_role_name name = if is_valid_role_name name then ok tt else err (invalid_role_name name)

  unfoldable pub scram_verifier : (Text → Text) → Text → Result Text (PostgresError D)
  scram_verifier scram_sha_256 password =
      if is_empty password
      then err (config (bytes "role password must not be empty"))
      else if has_byte 0 password
      then err (config (bytes "role password must not contain a NUL byte"))
      else if not (is_safe_verifier (scram_sha_256 password))
      then err (config (bytes "generated SCRAM verifier is not a plain verifier literal"))
      else ok (scram_sha_256 password)

  unfoldable pub alter_role_verifier_sql : Text → Text → Result Text (PostgresError D)
  alter_role_verifier_sql role_name verifier =
      validate_role_name role_name
      >> (if not (is_safe_verifier verifier)
          then err
              (config (bytes "SCRAM verifier contains characters outside the verifier alphabet"))
          else ok (
              bytes "ALTER ROLE \""
              ++ (role_name ++ (bytes "\" PASSWORD '" ++ (verifier ++ bytes "'")))))

unfoldable pub create_role_sql : Text → Text
create_role_sql role_name =
    bytes "DO $$ BEGIN IF NOT EXISTS (SELECT 1 FROM pg_roles WHERE rolname = '"
    ++ (role_name
        ++ (bytes "') THEN CREATE ROLE \"" ++ (role_name ++ bytes "\" LOGIN; END IF; END $$")))

-- The statements of `grant_app_access_once`, in order.
unfoldable pub grant_sql : Text → List Text
grant_sql app_role =
    (bytes "GRANT USAGE ON SCHEMA public TO \"" ++ (app_role ++ bytes "\""))
    ∷ (bytes "GRANT SELECT, INSERT, UPDATE, DELETE ON ALL TABLES IN SCHEMA public TO \""
        ++ (app_role ++ bytes "\""))
    ∷ (bytes "GRANT USAGE, SELECT ON ALL SEQUENCES IN SCHEMA public TO \""
        ++ (app_role ++ bytes "\""))
    ∷ (bytes
          "ALTER DEFAULT PRIVILEGES IN SCHEMA public GRANT SELECT, INSERT, UPDATE, DELETE ON TABLES TO \""
        ++ (app_role ++ bytes "\""))
    ∷ (bytes "ALTER DEFAULT PRIVILEGES IN SCHEMA public GRANT USAGE, SELECT ON SEQUENCES TO \""
        ++ (app_role ++ bytes "\""))
    ∷ []
