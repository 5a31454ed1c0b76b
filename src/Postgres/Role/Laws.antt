-- ===== src/Postgres/Role/Laws.antt =====
-- crates/br-util-postgres/src/role.rs, role_password.rs and grant.rs: a name or a verifier that is
-- accepted cannot end the quotes it is put in.
use br_rust_common.Base.{
  ℕ, Bool, true, false, Text, bytes, [], ◌∷◌, ◌++◌, ok, all, any-append, has_byte, split,
  split-append, split-of_has_byte, ◌≡◌, refl, arith, ap, nat_eq, nat_eq_iff, All, append_assoc, ◌∙◌,
  sym, Bool-cases, inl, inr,
}
use br_rust_common.Postgres.Role.{
  role_byte, verifier_byte, is_valid_role_name, is_safe_verifier, validate_role_name,
  alter_role_verifier_sql, create_role_sql, grant_sql,
}

-- No byte that satisfies `p` is `c`, so a text of such bytes does not hold it.
has_byte-all :
    (p : ℕ → Bool) (c : ℕ) (s : Text) → p c ≡ false → all p s ≡ true → has_byte c s ≡ false
has_byte-all p c [] h a = refl
has_byte-all p c (d ∷ s) h a =
    ground (arith, has_byte-all p c s h, nat_eq_iff d c, λ (e : d ≡ c). ap p e)

valid-role_byte : (name : Text) → is_valid_role_name name ≡ true → all role_byte name ≡ true
unfolding is_valid_role_name
valid-role_byte [] h = ground arith
valid-role_byte (c ∷ name) h = ground arith

safe-verifier_byte : (v : Text) → is_safe_verifier v ≡ true → all verifier_byte v ≡ true
unfolding is_safe_verifier
safe-verifier_byte v h = ground arith

valid-has_byte :
    (name : Text) (c : ℕ)
    → is_valid_role_name name ≡ true
    → role_byte c ≡ false
    → has_byte c name ≡ false
valid-has_byte name c v r = has_byte-all role_byte c name r (valid-role_byte name v)

-- `before"name"after`, split at the quotes.
split-quoted :
    (sep : ℕ) (before name after : Text)
    → has_byte sep before ≡ false
    → has_byte sep name ≡ false
    → has_byte sep after ≡ false
    → split sep (before ++ sep ∷ (name ++ sep ∷ after)) ≡ before ∷ name ∷ after ∷ []
split-quoted sep before name after b n a =
    split-append sep before (name ++ sep ∷ after) b
    ∙ ap (λ r. before ∷ r)
        (split-append sep name after n ∙ ap (λ r. name ∷ r) (split-of_has_byte sep after a))

alter-ok :
    {D : Type 0} (name verifier sql : Text)
    → alter_role_verifier_sql {D = D} name verifier ≡ ok sql
    → (is_valid_role_name name ≡ true)
      × (is_safe_verifier verifier ≡ true)
      × (sql
          ≡ bytes "ALTER ROLE \"" ++ (name ++ (bytes "\" PASSWORD '" ++ (verifier ++ bytes "'"))))
unfolding alter_role_verifier_sql validate_role_name
alter-ok name verifier sql h = elim (Bool-cases (is_valid_role_name name)) [
  | inr v ↦ ground (arith, v, h)
  | inl v ↦ elim (Bool-cases (is_safe_verifier verifier)) [
    | inr s ↦ ground (arith, v, s, h)
    | inl s ↦ (v, s, ground (arith, v, s, h))
  ]
]

has_byte-ends :
    (sep : ℕ) (before s after : Text)
    → has_byte sep before ≡ false
    → has_byte sep s ≡ false
    → has_byte sep after ≡ false
    → has_byte sep (before ++ (s ++ after)) ≡ false
has_byte-ends sep before s after b m a = ground (
  arith,
  b,
  m,
  a,
  any-append (λ c. nat_eq c sep) before (s ++ after),
  any-append (λ c. nat_eq c sep) s after,
)

-- A statement that sets a password is cut by its double quotes into three parts, of which the
-- second is the role's name, and by its single quotes into three, of which the second is the
-- verifier: neither can end its quotes. The statement is one that the function gives.
pub alter_role_verifier_sql-split :
    {D : Type 0} (name verifier sql : Text)
    → alter_role_verifier_sql {D = D} name verifier ≡ ok sql
    → (split b'"' sql
        ≡ bytes "ALTER ROLE " ∷ name ∷ (bytes " PASSWORD '" ++ (verifier ++ bytes "'")) ∷ [])
      × (split b'\'' sql
          ≡ (bytes "ALTER ROLE \"" ++ (name ++ bytes "\" PASSWORD ")) ∷ verifier ∷ [] ∷ [])
alter_role_verifier_sql-split name verifier sql h =
    let (v, s, e) = alter-ok name verifier sql h in
    let safe = λ (c : ℕ) (q : verifier_byte c ≡ false).
      has_byte-all verifier_byte c verifier q (safe-verifier_byte verifier s) in
    let before = name ++ bytes "\" PASSWORD " in
    (
      rw e (
          split-quoted b'"' (bytes "ALTER ROLE ") name
            (bytes " PASSWORD '" ++ (verifier ++ bytes "'")) refl (valid-has_byte name b'"' v refl)
            (has_byte-ends b'"' (bytes " PASSWORD '") verifier (bytes "'") refl (safe b'"' refl)
              refl)),
      rw e (
          ap (λ rest. split b'\'' (bytes "ALTER ROLE \"" ++ rest))
            (sym (append_assoc name (bytes "\" PASSWORD ") (b'\'' ∷ (verifier ++ bytes "'"))))
          ∙ split-quoted b'\'' (bytes "ALTER ROLE \"" ++ before) verifier []
              (has_byte-ends b'\'' (bytes "ALTER ROLE \"") name (bytes "\" PASSWORD ") refl
                (valid-has_byte name b'\'' v refl) refl)
              (safe b'\'' refl) refl),
    )

-- The statement that creates a role is cut by its double quotes into three parts, of which the
-- second is the role's name; the name is one that is accepted.
pub create_role_sql-split :
    (name : Text)
    → is_valid_role_name name ≡ true
    → split b'"' (create_role_sql name)
      ≡ (bytes "DO $$ BEGIN IF NOT EXISTS (SELECT 1 FROM pg_roles WHERE rolname = '"
          ++ (name ++ bytes "') THEN CREATE ROLE "))
        ∷ name
        ∷ bytes " LOGIN; END IF; END $$"
        ∷ []
unfolding create_role_sql
create_role_sql-split name v =
    let head = bytes "DO $$ BEGIN IF NOT EXISTS (SELECT 1 FROM pg_roles WHERE rolname = '" in
    let middle = bytes "') THEN CREATE ROLE " in
    let q = valid-has_byte name b'"' v refl in
    ap (λ rest. split b'"' (head ++ rest))
      (sym (append_assoc name middle (b'"' ∷ (name ++ bytes "\" LOGIN; END IF; END $$"))))
    ∙ split-quoted b'"' (head ++ (name ++ middle)) name (bytes " LOGIN; END IF; END $$")
        (has_byte-ends b'"' head name middle refl q refl) q refl

-- Each statement of a grant is cut by its double quotes into three parts, of which the second is
-- the role's name and the last is empty; the name is one that is accepted.
pub grant_sql-split :
    (name : Text)
    → is_valid_role_name name ≡ true
    → All (λ sql. (before : Text) × (split b'"' sql ≡ before ∷ name ∷ [] ∷ [])) (grant_sql name)
unfolding grant_sql
grant_sql-split name v =
    let q = valid-has_byte name b'"' v refl in
    let granted = λ (before : Text) (b : has_byte b'"' before ≡ false).
      split-quoted b'"' before name [] b q refl in
    let usage = bytes "GRANT USAGE ON SCHEMA public TO " in
    let tables = bytes "GRANT SELECT, INSERT, UPDATE, DELETE ON ALL TABLES IN SCHEMA public TO " in
    let sequences = bytes "GRANT USAGE, SELECT ON ALL SEQUENCES IN SCHEMA public TO " in
    let later_tables =
      bytes
        "ALTER DEFAULT PRIVILEGES IN SCHEMA public GRANT SELECT, INSERT, UPDATE, DELETE ON TABLES TO " in
    let later_sequences =
      bytes "ALTER DEFAULT PRIVILEGES IN SCHEMA public GRANT USAGE, SELECT ON SEQUENCES TO " in
    (
      (usage, granted usage refl),
      (
        (tables, granted tables refl),
        (
          (sequences, granted sequences refl),
          (
            (later_tables, granted later_tables refl),
            ((later_sequences, granted later_sequences refl), tt),
          ),
        ),
      ),
    )
