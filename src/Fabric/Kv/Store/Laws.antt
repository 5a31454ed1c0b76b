-- ===== src/Fabric/Kv/Store/Laws.antt =====
-- crates/br-util-nats-fabric/src/kv: a scan of the store, against the store as a function of the key.
use br_rust_common.Base.{
  Bool, true, false, Text, List, [], ◌∷◌, Option, none, some, Result, ok, err, if◌then◌else◌, ◌||◌,
  ◌==◌, text_Eq, insert, lookup, lookup-insert, Sorted, insert-Sorted, ◌≡◌, refl, arith,
  Result-cases, Bool-cases, inl, inr, Option-cases,
}
use br_rust_common.Fabric.Error
use br_rust_common.Fabric.Error.{FabricError}
use br_rust_common.Fabric.Kv.Key.{KvKey, new_key, new_key-eq-ok_iff, kv_key_Eq}
use br_rust_common.Fabric.Kv.Store.{
  Store, Codec, decode, kv_key_Ord, keep_value, scan_key, scan_keys_from, scan_all,
}

-- Does the listing name the key?
unfoldable pub listed : List (Result Text Text) → Text → Bool
listed [] key = false
listed (ok k ∷ items) key = key == k || listed items key
listed (err _ ∷ items) key = listed items key

abbrev pub keep_some {ℓ} : {V : Type ℓ} → (V → Bool) → Option V → Option V
keep_some p none = none
keep_some p (some v) = if p v then some v else none

abbrev pub or_else {ℓ} : {V : Type ℓ} → Option V → Option V → Option V
or_else (some v) o = some v
or_else none o = o

abbrev pub ok_value {ℓ} : {V : Type ℓ} → Result V Text → Option V
ok_value (ok v) = some v
ok_value (err _) = none

abbrev found_value {ℓ} :
    {V : Type ℓ} → (Text → Result V Text) → Result (Option Text) Text → Option V
found_value from_slice (ok (some bytes)) = ok_value (from_slice bytes)
found_value from_slice _ = none

-- What JetStream's listing of the keys promises: it names every key that has a value.
pub record IsListing {ℓ} {S : Type ℓ} (store : Store S) : Type ℓ where
  pub names :
      (s : S) (items : List (Result Text Text)) (key bytes : Text)
      → store.keys s ≡ ok items
      → store.get s key ≡ ok (some bytes)
      → listed items key ≡ true

module _ {ℓ κ} {S : Type ℓ} {V : Type κ} (store : Store S) (codec : Codec V) where
  -- The value that the store has for a key.
  unfoldable pub stored : S → Text → Option V
  stored s key = found_value codec.from_slice (store.get s key)

  -- The value that a scan is to find for a key.
  unfoldable pub passing : (Text → Bool) → (V → Bool) → S → Text → Option V
  passing wanted copy_filter s key =
      if wanted key then keep_some copy_filter (stored s key) else none

  -- What a turn does, when it does not fail.
  data Turn (value : Option V) (key : Text) (entries after : List (KvKey × V)) : Type κ where
    skips : value ≡ none → after ≡ entries → Turn value key entries after
    keeps :
        (v : V) (k : KvKey)
        → value ≡ some v
        → k.text ≡ key
        → after ≡ insert ⦃ord = kv_key_Ord⦄ k v entries
        → Turn value key entries after

  keep_value-Turn :
      (copy_filter : V → Bool) (key bytes : Text) (entries after : List (KvKey × V))
      → keep_value store codec copy_filter key bytes entries ≡ ok after
      → Turn (keep_some copy_filter (ok_value (codec.from_slice bytes))) key entries after
  unfolding keep_value decode
  keep_value-Turn copy_filter key bytes entries after h =
      elim (Result-cases (codec.from_slice bytes)) [
        | inr (e, d) ↦ ground (arith, d)
        | inl (v, d) ↦ elim (Bool-cases (copy_filter v)) [
          | inr f ↦ skips (ground (arith, d, f)) (ground (arith, d, f))
          | inl f ↦ elim (Result-cases (new_key key)) [
            | inr (e, n) ↦ ground (arith, d, f, n)
            | inl (k, n) ↦
                keeps v k (ground (arith, d, f)) (((new_key-eq-ok_iff key k).0 n).2)
                  (ground (arith, d, f, n))
          ]
        ]
      ]

  scan_key-Turn :
      (wanted : Text → Bool) (copy_filter : V → Bool) (s : S) (key : Text)
      (entries after : List (KvKey × V))
      → scan_key store codec wanted copy_filter s (ok key) entries ≡ ok after
      → Turn (passing wanted copy_filter s key) key entries after
  unfolding scan_key passing stored
  scan_key-Turn wanted copy_filter s key entries after h = elim (Bool-cases (wanted key)) [
    | inr w ↦ skips (ground (arith, w)) (ground (arith, w))
    | inl w ↦ elim (Result-cases (store.get s key)) [
      | inr (e, g) ↦ ground (arith, w, g)
      | inl (none, g) ↦ skips (ground (arith, w, g)) (ground (arith, w, g))
      | inl (some bytes, g) ↦
          rw (w, g) (keep_value-Turn copy_filter key bytes entries after (rw (w, g) at h))
    ]
  ]

  Turn-lookup :
      (value : Option V) (key : Text) (entries after : List (KvKey × V)) (j : KvKey)
      → Turn value key entries after
      → lookup after j
        ≡ (if j.text == key then or_else value (lookup entries j) else lookup entries j)
  Turn-lookup value key entries after j (skips n e) = rw (n, e) (ground arith)
  Turn-lookup value key entries after j (keeps v k n t e) = ground (
    arith,
    n,
    e,
    t,
    lookup-insert ⦃ord = kv_key_Ord⦄ k v entries j,
    kv_key_Eq.beq_iff j k,
    text_Eq.beq_iff j.text key,
  )

  Turn-Sorted :
      (value : Option V) (key : Text) (entries after : List (KvKey × V))
      → Turn value key entries after
      → Sorted ⦃ord = kv_key_Ord⦄ entries
      → Sorted ⦃ord = kv_key_Ord⦄ after
  Turn-Sorted value key entries after (skips n e) sorted = rw e sorted
  Turn-Sorted value key entries after (keeps v k n t e) sorted =
      rw e (insert-Sorted ⦃ord = kv_key_Ord⦄ k v entries sorted)

  -- What the loop has for a key when it ends.
  abbrev scanned : Bool → Option V → Option V → Option V
  scanned true value old = or_else value old
  scanned false value old = old

  scanned-or :
      (a b : Bool) (value old : Option V)
      → scanned b value (if a then or_else value old else old) ≡ scanned (a || b) value old
  scanned-or true true none old = refl
  scanned-or true true (some v) old = refl
  scanned-or true false value old = refl
  scanned-or false b value old = refl

  scan_key-err :
      (wanted : Text → Bool) (copy_filter : V → Bool) (s : S) (e : Text)
      (entries : List (KvKey × V))
      → scan_key store codec wanted copy_filter s (err e) entries ≡ err (Error.kv e)
  unfolding scan_key
  scan_key-err wanted copy_filter s e entries = refl

  scan_keys_from-lookup :
      (wanted : Text → Bool) (copy_filter : V → Bool) (s : S) (items : List (Result Text Text))
      (entries after : List (KvKey × V))
      → scan_keys_from store codec wanted copy_filter s items entries ≡ ok after
      → Sorted ⦃ord = kv_key_Ord⦄ entries
      → Sorted ⦃ord = kv_key_Ord⦄ after
        × ((j : KvKey)
            → lookup after j
              ≡ scanned
                  (listed items j.text)
                  (passing wanted copy_filter s j.text)
                  (lookup entries j))
  unfolding scan_keys_from listed
  scan_keys_from-lookup wanted copy_filter s [] entries after h sorted =
      let e : entries ≡ after = ground arith in (rw (← e) sorted, λ j. rw (← e) refl)
  scan_keys_from-lookup wanted copy_filter s (err e ∷ items) entries after h sorted =
      ground (arith, scan_key-err wanted copy_filter s e entries, h)
  scan_keys_from-lookup wanted copy_filter s (ok key ∷ items) entries after h sorted =
      elim (Result-cases (scan_key store codec wanted copy_filter s (ok key) entries)) [
        | inr (e, x) ↦ ground (arith, x, h)
        | inl (middle, x) ↦
            let t = scan_key-Turn wanted copy_filter s key entries middle x in
            let r : scan_keys_from store codec wanted copy_filter s items middle ≡ ok after =
              rw x at h in
            let (sorted', look) =
              scan_keys_from-lookup wanted copy_filter s items middle after r
                (Turn-Sorted (passing wanted copy_filter s key) key entries middle t sorted) in
            (
              sorted',
              λ j. ground (
                arith,
                look j,
                Turn-lookup (passing wanted copy_filter s key) key entries middle j t,
                scanned-or (j.text == key) (listed items j.text)
                    (passing wanted copy_filter s j.text) (lookup entries j),
                text_Eq.beq_iff j.text key,
              ),
            )
      ]

  passing-get :
      (wanted : Text → Bool) (copy_filter : V → Bool) (s : S) (key : Text) (v : V)
      → passing wanted copy_filter s key ≡ some v
      → (bytes : Text) × (store.get s key ≡ ok (some bytes))
  unfolding passing stored
  passing-get wanted copy_filter s key v h = elim (Result-cases (store.get s key)) [
    | inr (e, g) ↦ ground (arith, g)
    | inl (none, g) ↦ ground (arith, g)
    | inl (some bytes, g) ↦ (bytes, g)
  ]

  pub scan_all-lookup :
      (wanted : Text → Bool) (copy_filter : V → Bool) (s : S) (out : List (KvKey × V))
      → IsListing store
      → scan_all store codec wanted copy_filter s ≡ ok out
      → Sorted ⦃ord = kv_key_Ord⦄ out
        × ((j : KvKey) → lookup out j ≡ passing wanted copy_filter s j.text)
  unfolding scan_all lookup
  scan_all-lookup wanted copy_filter s out listing h = elim (Result-cases (store.keys s)) [
    | inr (e, k) ↦ ground (arith, k)
    | inl (items, k) ↦
        let r : scan_keys_from store codec wanted copy_filter s items [] ≡ ok out = rw k at h in
        let (sorted, look) = scan_keys_from-lookup wanted copy_filter s items [] out r tt in
        (
          sorted,
          λ j. elim (Option-cases (passing wanted copy_filter s j.text)) [
            | inl n ↦ elim (Bool-cases (listed items j.text)) [
              | inl l ↦ ground (arith, look j, n, l)
              | inr l ↦ ground (arith, look j, n, l)
            ]
            | inr (v, p) ↦
                let (bytes, g) = passing-get wanted copy_filter s j.text v p in
                ground (arith, look j, p, listing.names s items j.text bytes k g)
          ],
        )
  ]
