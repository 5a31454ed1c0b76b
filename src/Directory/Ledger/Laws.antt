-- ===== src/Directory/Ledger/Laws.antt =====
-- crates/br-util-directory/src/consumer/ledger.rs: what is recorded after the migrations ran.
use br_rust_common.Base.{
  ℕ, Text, List, [], ◌∷◌, none, some, Result, ok, nat_Eq, text_Eq, ◌==◌, lookup, All, ◌≡◌, refl,
  arith, Result-cases, Bool-cases, Option-cases, inl, inr,
}
use br_rust_common.Directory.Ledger.{
  Migration, Database, adopted_from_legacy, record_migration, apply_one, apply_each, apply_pending,
}

-- The second table has every row of the first.
pub record Extends (before after : List (ℕ × Text)) : Type 0 where
  pub keeps :
      (version : ℕ) (checksum : Text)
      → lookup before version ≡ some checksum
      → lookup after version ≡ some checksum

abbrev pub IsRecorded {ℓ} : {S : Type ℓ} → Database S → Migration → Type 0
IsRecorded db migration = lookup db.recorded migration.version ≡ some migration.checksum

Extends-cons :
    (rows : List (ℕ × Text)) (version : ℕ) (checksum : Text)
    → lookup rows version ≡ none
    → Extends rows ((version, checksum) ∷ rows)
unfolding lookup
Extends-cons rows version checksum e = record { keeps = λ v c k. ground (arith, e, k) }

module _ {ℓ κ} {S : Type ℓ} {D : Type κ} (execute : Text → S → Result S D) where
  record_migration-ok :
      (db after : Database S) (m : Migration)
      → record_migration execute db m ≡ ok after
      → Extends db.recorded after.recorded × (lookup after.recorded m.version ≡ some m.checksum)
  unfolding record_migration lookup
  record_migration-ok db after m h = elim (Option-cases (lookup db.recorded m.version)) [
    | inr (c, e) ↦ ground (arith, e, h)
    | inl e ↦
        let n : record db { recorded = (m.version, m.checksum) ∷ db.recorded } ≡ after =
          ground (arith, e, h) in
        rw (← n) (Extends-cons db.recorded m.version m.checksum e, ground arith)
  ]

  apply_one-ok :
      (recorded : List (ℕ × Text)) (db after : Database S) (m : Migration)
      → Extends recorded db.recorded
      → apply_one execute recorded db m ≡ ok after
      → Extends db.recorded after.recorded × (lookup after.recorded m.version ≡ some m.checksum)
  unfolding apply_one
  apply_one-ok recorded db after m x h = elim (Option-cases (lookup recorded m.version)) [
    | inr (c, e) ↦ elim (Bool-cases (c == m.checksum)) [
      | inr n ↦ ground (arith, e, n, h)
      | inl n ↦
          let q : db ≡ after = ground (arith, e, n, h) in
          rw (← q) (
            record { keeps = λ version checksum k. k },
            ground (arith, x.keeps m.version c e, text_Eq.beq_iff c m.checksum),
          )
    ]
    | inl e ↦ elim (Bool-cases (adopted_from_legacy execute db m)) [
      | inl a ↦ record_migration-ok db after m (ground (arith, e, a, h))
      | inr a ↦ elim (Result-cases (execute m.sql db.schema)) [
        | inr (d, r) ↦ ground (arith, e, a, r, h)
        | inl (schema, r) ↦
            record_migration-ok (record db { schema = schema }) after m (ground (arith, e, a, r, h))
      ]
    ]
  ]

  apply_each-ok :
      (recorded : List (ℕ × Text)) (db after : Database S) (ms : List Migration)
      → Extends recorded db.recorded
      → apply_each execute recorded db ms ≡ ok after
      → Extends db.recorded after.recorded × All (IsRecorded after) ms
  unfolding apply_each
  apply_each-ok recorded db after [] x h =
      (let e : db ≡ after = ground (arith, h) in rw (← e) (record { keeps = λ v c k. k }), tt)
  apply_each-ok recorded db after (m ∷ ms) x h =
      elim (Result-cases (apply_one execute recorded db m)) [
        | inr (e, r) ↦ ground (arith, r, h)
        | inl (middle, r) ↦
            let (grows, here) = apply_one-ok recorded db middle m x r in
            let x' : Extends recorded middle.recorded = record {
              keeps = λ v c k. grows.keeps v c (x.keeps v c k);
            } in
            let (grows', rest) =
              apply_each-ok recorded middle after ms x' (rw (r, apply_each) at h) in
            (
              record { keeps = λ v c k. grows'.keeps v c (grows.keeps v c k) },
              (grows'.keeps m.version m.checksum here, rest),
            )
      ]

  apply_each-recorded :
      (db : Database S) (ms : List Migration)
      → All (IsRecorded db) ms
      → apply_each execute db.recorded db ms ≡ ok db
  unfolding apply_each apply_one
  apply_each-recorded db [] h = refl
  apply_each-recorded db (m ∷ ms) h =
      ground (arith, h.0, apply_each-recorded db ms h.1, text_Eq.beq_iff m.checksum m.checksum)

  -- When the pending migrations are applied without an error, each one is recorded with its
  -- checksum, every row that was there before is kept, and applying them again changes nothing.
  pub apply_pending-twice :
      (db after : Database S) (migrations : List Migration)
      → apply_pending execute db migrations ≡ ok after
      → All (IsRecorded after) migrations
        × Extends db.recorded after.recorded
        × (apply_pending execute after migrations ≡ ok after)
  unfolding apply_pending
  apply_pending-twice db after migrations h =
      let (grows, all) =
        apply_each-ok db.recorded db after migrations (record { keeps = λ v c k. k }) h in
      (all, grows, apply_each-recorded after migrations all)
