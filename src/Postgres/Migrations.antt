-- ===== src/Postgres/Migrations.antt =====
-- crates/br-util-postgres/src/migrations.rs: the state of a database against the migrations that a
-- service embeds. The hash maps are lists; what the connection answers is an argument.
use br_rust_common.Base.{
  ℕ, suc, Bool, true, false, ◌&&◌, ◌||◌, Text, bytes, List, [], ◌∷◌, Option, none, some, Result, ok,
  err, ltb, nat_eq, nat_Eq, text_Eq, ◌==◌, is_empty, all, if◌then◌else◌, ◌≡◌, refl, arith,
  Option-cases, inl, inr, Bool-cases, nat_eq_iff, ◌∙◌,
}

pub record Migration : Type 0 where
  pub version : ℕ
  pub checksum : Text
  pub is_down : Bool

pub record AppliedMigration : Type 0 where
  pub version : ℕ
  pub checksum : Text

pub record MigrationsStatus : Type 0 where
  pub applied : ℕ
  pub pending : List ℕ
  pub checksum_mismatch : List ℕ
  pub applied_not_embedded : List ℕ
  pub dirty : Option ℕ

abbrev is_some : Option Text → Bool
is_some none = false
is_some (some _) = true

abbrev pub is_none : Option ℕ → Bool
is_none none = true
is_none (some _) = false

unfoldable pub embedded_applied : MigrationsStatus → Bool
embedded_applied s = is_empty s.pending && (is_empty s.checksum_mismatch && is_none s.dirty)

unfoldable pub is_current : MigrationsStatus → Bool
is_current s = embedded_applied s && is_empty s.applied_not_embedded

-- `sort_unstable`.
abbrev insert_ordered : ℕ → List ℕ → List ℕ
insert_ordered x [] = x ∷ []
insert_ordered x (y ∷ ys) =
    let rest = insert_ordered x ys in if ltb y x then y ∷ rest else x ∷ y ∷ ys

unfoldable pub sort : List ℕ → List ℕ
sort [] = []
sort (x ∷ xs) = insert_ordered x (sort xs)

-- `rows.get`: of the rows of one version, `collect` into the map keeps the last.
unfoldable pub row_checksum : List AppliedMigration → ℕ → Option Text
row_checksum [] version = none
row_checksum (row ∷ rows) version =
    let rest = row_checksum rows version in
    if is_some rest then rest else if nat_eq row.version version then some row.checksum else none

-- The three things that the loop over the embedded migrations gathers.
unfoldable pub pending_of : List AppliedMigration → List Migration → List ℕ
pending_of rows [] = []
pending_of rows (m ∷ ms) =
    let rest = pending_of rows ms in
    if m.is_down
    then rest
    else elim (row_checksum rows m.version) [ none ↦ m.version ∷ rest | some _ ↦ rest ]

unfoldable pub mismatch_of : List AppliedMigration → List Migration → List ℕ
mismatch_of rows [] = []
mismatch_of rows (m ∷ ms) =
    let rest = mismatch_of rows ms in
    if m.is_down then rest else elim (row_checksum rows m.version) [
      | none ↦ rest
      | some checksum ↦ if checksum == m.checksum then rest else m.version ∷ rest
    ]

unfoldable pub applied_count : List AppliedMigration → List Migration → ℕ
applied_count rows [] = 0
applied_count rows (m ∷ ms) =
    let rest = applied_count rows ms in
    if m.is_down
    then rest
    else elim (row_checksum rows m.version) [ none ↦ rest | some _ ↦ suc rest ]

unfoldable pub has_version : List Migration → ℕ → Bool
has_version [] version = false
has_version (m ∷ ms) version = nat_eq version m.version || has_version ms version

-- `rows.into_keys()`, filtered: a version that a later row has again is given there.
unfoldable pub not_embedded : List Migration → List AppliedMigration → List ℕ
not_embedded embedded [] = []
not_embedded embedded (row ∷ rows) =
    let rest = not_embedded embedded rows in
    if has_version embedded row.version || is_some (row_checksum rows row.version)
    then rest
    else row.version ∷ rest

unfoldable pub compare : List Migration → List AppliedMigration → Option ℕ → MigrationsStatus
compare embedded rows dirty = record {
  applied = applied_count rows embedded;
  pending = sort (pending_of rows embedded);
  checksum_mismatch = sort (mismatch_of rows embedded);
  applied_not_embedded = sort (not_embedded embedded rows);
  dirty = dirty;
}

-- An error of the connection, by the code that the database gives.
pub data MigrateError : Type 0 where
  execute : (code : Option Text) → MigrateError
  other : Text → MigrateError

unfoldable pub is_missing_migrations_table : MigrateError → Bool
is_missing_migrations_table (execute none) = false
is_missing_migrations_table (execute (some code)) = code == bytes "42P01"
is_missing_migrations_table (other _) = false

unfoldable pub migrations_status :
    List Migration
    → Result (List AppliedMigration) MigrateError
    → Result (Option ℕ) MigrateError
    → Result MigrationsStatus MigrateError
migrations_status embedded listed dirty = elim listed [
  | err e ↦ if is_missing_migrations_table e then ok (compare embedded [] none) else err e
  | ok applied ↦ elim dirty [ err e ↦ err e | ok d ↦ ok (compare embedded applied d) ]
]

insert_ordered-is_empty : (x : ℕ) (xs : List ℕ) → is_empty (insert_ordered x xs) ≡ false
insert_ordered-is_empty x [] = refl
insert_ordered-is_empty x (y ∷ ys) = ground arith

sort-is_empty : (xs : List ℕ) → is_empty (sort xs) ≡ is_empty xs
unfolding sort
sort-is_empty [] = refl
sort-is_empty (x ∷ xs) = insert_ordered-is_empty x (sort xs)

-- The migration is applied as it is embedded, or is one that is never applied.
abbrev pub is_applied : List AppliedMigration → Migration → Bool
is_applied rows m =
    m.is_down
    || elim (row_checksum rows m.version) [ none ↦ false | some checksum ↦ checksum == m.checksum ]

gathered-is_empty :
    (rows : List AppliedMigration) (ms : List Migration)
    → (is_empty (pending_of rows ms) && is_empty (mismatch_of rows ms)) ≡ all (is_applied rows) ms
unfolding pending_of mismatch_of
gathered-is_empty rows [] = refl
gathered-is_empty rows (m ∷ ms) = elim (Option-cases (row_checksum rows m.version)) [
  | inl e ↦ ground (arith, e, gathered-is_empty rows ms)
  | inr (c, e) ↦ ground (arith, e, gathered-is_empty rows ms)
]

covered :
    (embedded : List Migration) (rows : List AppliedMigration) (version : ℕ)
    → is_some (row_checksum rows version) ≡ true
    → all (λ row. has_version embedded row.version) rows ≡ true
    → has_version embedded version ≡ true
unfolding row_checksum
covered embedded [] version h a = ground (arith, h)
covered embedded (row ∷ rows) version h a =
    elim (Bool-cases (is_some (row_checksum rows version))) [
      | inl e ↦ covered embedded rows version e (ground (arith, a))
      | inr e ↦
          let same : row.version ≡ version =
            (nat_eq_iff row.version version).0 (ground (arith, h, e)) in
          rw (← same) (ground (arith, a))
    ]

not_embedded-is_empty :
    (embedded : List Migration) (rows : List AppliedMigration)
    → is_empty (not_embedded embedded rows) ≡ all (λ row. has_version embedded row.version) rows
unfolding not_embedded
not_embedded-is_empty embedded [] = refl
not_embedded-is_empty embedded (row ∷ rows) = elim (Bool-cases (has_version embedded row.version)) [
  | inl e ↦ rw (e, not_embedded) (not_embedded-is_empty embedded rows)
  | inr e ↦ elim (Bool-cases (is_some (row_checksum rows row.version))) [
    | inr n ↦ rw (e, n, not_embedded) refl
    | inl y ↦ elim (Bool-cases (all (λ r. has_version embedded r.version) rows)) [
      | inl a ↦ ground (arith, e, covered embedded rows row.version y a)
      | inr a ↦ rw (e, y, not_embedded) (not_embedded-is_empty embedded rows ∙ a)
    ]
  ]
]

-- A database is current exactly when each embedded migration that is not a down migration is applied
-- with the embedded checksum, each applied one is embedded, and none is dirty; of the rows of one
-- version the last counts.
pub is_current-compare :
    (embedded : List Migration) (rows : List AppliedMigration) (dirty : Option ℕ)
    → is_current (compare embedded rows dirty) ≡ (
        all (is_applied rows) embedded
        && is_none dirty
        && all (λ row. has_version embedded row.version) rows)
unfolding is_current embedded_applied compare
is_current-compare embedded rows dirty = ground (
  arith,
  sort-is_empty (pending_of rows embedded),
  sort-is_empty (mismatch_of rows embedded),
  sort-is_empty (not_embedded embedded rows),
  gathered-is_empty rows embedded,
  not_embedded-is_empty embedded rows,
)
