-- ===== src/Fabric/Kv/Publisher/Revision.antt =====
-- crates/br-util-nats-fabric/src/kv/revision.rs: writes that expect a revision.
use br_rust_common.Base.{
  ℕ, ◌<◌, ◌≤◌, Bool, true, false, ◌&&◌, ◌||◌, Text, List, [], ◌∷◌, Option, none, some, Result, ok,
  err, ◌==◌, text_Eq, ◌≡◌, refl, arith, Result-cases, Bool-cases, inl, inr,
}
use br_rust_common.Fabric.Kv.Key.{KvKey}
use br_rust_common.Fabric.Kv.Store.{
  Store, Codec, encode, decode, Entry, Operation, put, delete, purge,
}
use br_rust_common.Fabric.Kv.Publisher.{
  update_expecting, delete_expecting, put_value, read_with_revision, live_value,
}

-- What JetStream's store promises of revisions: each key has a last one, which an entry carries and
-- no write lowers, also one that fails; a write that is done raises its key's, and one that expects
-- a revision is done only at that revision. Of the error of a write that is not done nothing is said.
pub record IsVersioned {ℓ} {S : Type ℓ} (store : Store S) : Type ℓ where
  pub revision : S → Text → ℕ
  pub entry_revision :
      (s : S) (key : Text) (entry : Entry)
      → store.entry s key ≡ ok (some entry)
      → entry.revision ≡ revision s key
  pub update_keeps :
      (s : S) (key bytes k : Text) (expected : ℕ)
      → revision s k ≤ revision (store.update s key bytes expected).1 k
  pub put_keeps : (s : S) (key bytes k : Text) → revision s k ≤ revision (store.put s key bytes).1 k
  pub delete_keeps :
      (s : S) (key k : Text) (expected : Option ℕ)
      → revision s k ≤ revision (store.delete_expect_revision s key expected).1 k
  pub update_done :
      (s : S) (key bytes : Text) (expected n : ℕ)
      → (store.update s key bytes expected).0 ≡ ok n
      → (revision s key ≡ expected)
        × (revision s key < revision (store.update s key bytes expected).1 key)
  pub put_done :
      (s : S) (key bytes : Text) (n : ℕ)
      → (store.put s key bytes).0 ≡ ok n
      → revision s key < revision (store.put s key bytes).1 key
  pub delete_done :
      (s : S) (key : Text) (expected : ℕ)
      → (store.delete_expect_revision s key (some expected)).0 ≡ ok tt
      → (revision s key ≡ expected)
        × (revision s key < revision (store.delete_expect_revision s key (some expected)).1 key)

-- A write of some writer.
pub data Write {κ} (V : Type κ) : Type κ where
  updating : KvKey → V → ℕ → Write V
  putting : KvKey → V → Write V
  deleting : KvKey → ℕ → Write V

abbrev pub is_ok {ℓ κ} : {A : Type ℓ} {E : Type κ} → Result A E → Bool
is_ok (ok _) = true
is_ok (err _) = false

abbrev pub key_of {κ} : {V : Type κ} → Write V → KvKey
key_of (updating key _ _) = key
key_of (putting key _) = key
key_of (deleting key _) = key

module _ {ℓ κ} {S : Type ℓ} {V : Type κ} (store : Store S) (codec : Codec V) where
  -- Is the write done, and the store after it.
  abbrev pub run_write : S → Write V → Bool × S
  run_write s (updating key value expected) =
      let (r, after) = update_expecting store codec s key value expected in (is_ok r, after)
  run_write s (putting key value) =
      let (r, after) = put_value store codec s key value in (is_ok r, after)
  run_write s (deleting key expected) =
      let (r, after) = delete_expecting store codec s key expected in (is_ok r, after)

  abbrev pub run_writes : S → List (Write V) → S
  run_writes s [] = s
  run_writes s (w ∷ ws) = run_writes (run_write s w).1 ws

  -- One of the writes that are done is of the key.
  abbrev pub overwrites : KvKey → S → List (Write V) → Bool
  overwrites key s [] = false
  overwrites key s (w ∷ ws) =
      let (done, after) = run_write s w in
      ((key_of w).text == key.text && done) || overwrites key after ws

module _ {ℓ κ} {S : Type ℓ} {V : Type κ} (store : Store S) (codec : Codec V)
    (law : IsVersioned store) where
  live_value-revision :
      (key : KvKey) (name value : Text) (operation : Operation) (revision : ℕ) (v : V)
      (expected : ℕ)
      → live_value store codec key
          (record { key = name; value = value; operation = operation; revision = revision })
        ≡ ok (some (v, expected))
      → revision ≡ expected
  unfolding live_value decode
  live_value-revision key name value delete revision v expected h = ground (arith, h)
  live_value-revision key name value purge revision v expected h = ground (arith, h)
  live_value-revision key name value put revision v expected h =
      elim (Result-cases (codec.from_slice value)) [
        | inr (e, d) ↦ ground (arith, d, h)
        | inl (w, d) ↦ ground (arith, d, h)
      ]

  read-revision :
      (s : S) (key : KvKey) (v : V) (expected : ℕ)
      → read_with_revision store codec s key ≡ ok (some (v, expected))
      → law.revision s key.text ≡ expected
  unfolding read_with_revision
  read-revision s key v expected h = elim (Result-cases (store.entry s key.text)) [
    | inr (e, r) ↦ ground (arith, r, h)
    | inl (none, r) ↦ ground (arith, r, h)
    | inl (some entry, r) ↦ ground (
      arith,
      law.entry_revision s key.text entry r,
      live_value-revision key entry.key entry.value entry.operation entry.revision v expected
          (rw (r, read_with_revision) at h),
    )
  ]

  update-keeps :
      (s : S) (key : KvKey) (value : V) (expected : ℕ) (k : Text)
      → law.revision s k ≤ law.revision (update_expecting store codec s key value expected).1 k
  unfolding update_expecting
  update-keeps s key value expected k = elim (Result-cases (encode codec value)) [
    | inr (x, e) ↦ ground (arith, e)
    | inl (bytes, e) ↦ ground (arith, e, law.update_keeps s key.text bytes k expected)
  ]

  put-keeps :
      (s : S) (key : KvKey) (value : V) (k : Text)
      → law.revision s k ≤ law.revision (put_value store codec s key value).1 k
  unfolding put_value
  put-keeps s key value k = elim (Result-cases (encode codec value)) [
    | inr (x, e) ↦ ground (arith, e)
    | inl (bytes, e) ↦ ground (arith, e, law.put_keeps s key.text bytes k)
  ]

  run_write-keeps :
      (s : S) (w : Write V) (k : Text)
      → law.revision s k ≤ law.revision (run_write store codec s w).1 k
  unfolding delete_expecting
  run_write-keeps s (updating key value expected) k = update-keeps s key value expected k
  run_write-keeps s (putting key value) k = put-keeps s key value k
  run_write-keeps s (deleting key expected) k = law.delete_keeps s key.text k (some expected)

  update-done :
      (s : S) (key : KvKey) (value : V) (expected : ℕ)
      → is_ok (update_expecting store codec s key value expected).0 ≡ true
      → (law.revision s key.text ≡ expected)
        × (law.revision s key.text
            < law.revision (update_expecting store codec s key value expected).1 key.text)
  unfolding update_expecting
  update-done s key value expected h = elim (Result-cases (encode codec value)) [
    | inr (x, e) ↦ ground (arith, e, h)
    | inl (bytes, e) ↦ elim (Result-cases (store.update s key.text bytes expected).0) [
      | inr (x, r) ↦ ground (arith, e, r, h)
      | inl (n, r) ↦ ground (arith, e, r, law.update_done s key.text bytes expected n r)
    ]
  ]

  put-done :
      (s : S) (key : KvKey) (value : V)
      → is_ok (put_value store codec s key value).0 ≡ true
      → law.revision s key.text < law.revision (put_value store codec s key value).1 key.text
  unfolding put_value
  put-done s key value h = elim (Result-cases (encode codec value)) [
    | inr (x, e) ↦ ground (arith, e, h)
    | inl (bytes, e) ↦ elim (Result-cases (store.put s key.text bytes).0) [
      | inr (x, r) ↦ ground (arith, e, r, h)
      | inl (n, r) ↦ ground (arith, e, r, law.put_done s key.text bytes n r)
    ]
  ]

  delete-done :
      (s : S) (key : KvKey) (expected : ℕ)
      → is_ok (delete_expecting store codec s key expected).0 ≡ true
      → law.revision s key.text
        < law.revision (delete_expecting store codec s key expected).1 key.text
  unfolding delete_expecting
  delete-done s key expected h =
      elim (Result-cases (store.delete_expect_revision s key.text (some expected)).0) [
        | inr (x, r) ↦ ground (arith, r, h)
        | inl (u, r) ↦ (law.delete_done s key.text expected r).1
      ]

  run_write-done :
      (s : S) (w : Write V)
      → (run_write store codec s w).0 ≡ true
      → law.revision s (key_of w).text < law.revision (run_write store codec s w).1 (key_of w).text
  run_write-done s (updating key value expected) h = (update-done s key value expected h).1
  run_write-done s (putting key value) h = put-done s key value h
  run_write-done s (deleting key expected) h = delete-done s key expected h

  run_writes-keeps :
      (s : S) (writes : List (Write V)) (k : Text)
      → law.revision s k ≤ law.revision (run_writes store codec s writes) k
  run_writes-keeps s [] k = omega arith
  run_writes-keeps s (w ∷ ws) k =
      omega (arith, run_write-keeps s w k, run_writes-keeps (run_write store codec s w).1 ws k)

  run_writes-done :
      (key : KvKey) (s : S) (writes : List (Write V))
      → overwrites store codec key s writes ≡ true
      → law.revision s key.text < law.revision (run_writes store codec s writes) key.text
  run_writes-done key s [] h = ground (arith, h)
  run_writes-done key s (w ∷ ws) h =
      let after = (run_write store codec s w).1 in
      let first = run_write-keeps s w key.text in
      let rest = run_writes-keeps after ws key.text in
      elim (Bool-cases (overwrites store codec key after ws)) [
        | inl o ↦ omega (arith, first, run_writes-done key after ws o)
        | inr o ↦
            let done : (run_write store codec s w).0 ≡ true = ground (arith, h, o) in
            let same : ((key_of w).text == key.text) ≡ true = ground (arith, h, o) in
            let raised = run_write-done s w done in
            let at_key = rw ((text_Eq.beq_iff (key_of w).text key.text).0 same) at raised in
            omega (arith, at_key, rest)
      ]

  -- No update is lost: between the read of a value and an update that expects the revision that was
  -- read, other writers may put, update and delete any keys, with or without success; if the update
  -- is done, none of their writes of this key was done. The store keeps revisions.
  pub update_expecting-overwrites :
      (s : S) (key : KvKey) (read value : V) (writes : List (Write V)) (expected n : ℕ)
      → read_with_revision store codec s key ≡ ok (some (read, expected))
      → (update_expecting store codec (run_writes store codec s writes) key value expected).0 ≡ ok n
      → overwrites store codec key s writes ≡ false
  update_expecting-overwrites s key read value writes expected n r u =
      elim (Bool-cases (overwrites store codec key s writes)) [
        | inr o ↦ o
        | inl o ↦
            let at_end =
              (update-done (run_writes store codec s writes) key value expected (rw u refl)).0 in
            let at_start = read-revision s key read expected r in
            ground (arith, run_writes-done key s writes o, at_start, at_end)
      ]
