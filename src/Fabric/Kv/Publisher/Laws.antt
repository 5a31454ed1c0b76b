-- ===== src/Fabric/Kv/Publisher/Laws.antt =====
-- crates/br-util-nats-fabric/src/kv/publisher.rs: what a reconciliation makes of the store. The
-- store is seen as a function of the key.
use br_rust_common.Base.{
  ℕ, Bool, true, false, not, ◌&&◌, Text, List, [], ◌∷◌, Option, none, some, ok, ◌==◌, if◌then◌else◌,
  contains, distinct, lookup, Eq, ◌≡◌, refl, arith, Result-cases, inl, inr, ap, text_Eq, ◌∙◌,
}
use br_rust_common.Fabric.Kv.Key.{KvKey, KvPrefix, kv_key_Eq, matches}
use br_rust_common.Fabric.Kv.Reconcile
use br_rust_common.Fabric.Kv.Reconcile.{KvOp, keys, get, puts, deletes, reconcile}
use br_rust_common.Fabric.Kv.Reconcile.Laws.{
  apply, apply_all, apply_all-append, apply_all-puts, apply_all-deletes, put_effect,
  put_effect_self,
}
use br_rust_common.Fabric.Kv.Store.{Store, Codec, encode, scan_entries}
use br_rust_common.Fabric.Kv.Store.Laws.{
  IsListing, stored, passing, keep_some, or_else, scan_all-lookup,
}
use br_rust_common.Fabric.Kv.Projection.Laws.{is_some}
use br_rust_common.Fabric.Kv.Publisher.{put_value, retract, write_op, write_ops, reconcile_prefix}

-- What JetStream's store promises of the writes that succeed: it is a map.
pub record IsMap {ℓ} {S : Type ℓ} (store : Store S) : Type ℓ where
  pub put_get :
      (s after : S) (key bytes j : Text) (revision : ℕ)
      → store.put s key bytes ≡ (ok revision, after)
      → store.get after j ≡ (if j == key then ok (some bytes) else store.get s j)
  pub delete_get :
      (s after : S) (key j : Text)
      → store.delete s key ≡ (ok tt, after)
      → store.get after j ≡ (if j == key then ok none else store.get s j)

-- What serde promises of the codec: a value that is written can be read.
pub record IsCodec {κ} {V : Type κ} (codec : Codec V) : Type κ where
  pub from_to : (v : V) (bytes : Text) → codec.to_vec v ≡ ok bytes → codec.from_slice bytes ≡ ok v

get-lookup {κ} : {V : Type κ} (m : List (KvKey × V)) (k : KvKey) → get m k ≡ lookup m k
unfolding get lookup
get-lookup [] k = refl
get-lookup ((j, v) ∷ m) k =
    ground (arith, get-lookup m k, kv_key_Eq.beq_iff j k, kv_key_Eq.beq_iff k j)

module _ {ℓ κ} {S : Type ℓ} {V : Type κ} (store : Store S) (codec : Codec V) (map : IsMap store)
    (law : IsCodec codec) where
  write_op-stored :
      (s after : S) (op : KvOp KvKey V) (j : KvKey)
      → write_op store codec s op ≡ (ok tt, after)
      → stored store codec after j.text ≡ apply (λ (k : KvKey). stored store codec s k.text) op j
  unfolding write_op put_value retract encode stored
  write_op-stored s after (Reconcile.put key value) j h = elim (Result-cases (codec.to_vec value)) [
    | inr (e, c) ↦ ground (arith, c, h)
    | inl (bytes, c) ↦ elim (Result-cases (store.put s key.text bytes).0) [
      | inr (e, p) ↦ ground (arith, c, p, h)
      | inl (n, p) ↦ ground (
        arith,
        c,
        p,
        h,
        law.from_to value bytes c,
        map.put_get s after key.text bytes j.text n,
        text_Eq.beq_iff j.text key.text,
        text_Eq.beq_iff key.text j.text,
      )
    ]
  ]
  write_op-stored s after (Reconcile.delete key) j h =
      elim (Result-cases (store.delete s key.text).0) [
        | inr (e, p) ↦ ground (arith, p, h)
        | inl (u, p) ↦ ground (
          arith,
          p,
          h,
          map.delete_get s after key.text j.text,
          text_Eq.beq_iff j.text key.text,
          text_Eq.beq_iff key.text j.text,
        )
      ]

  apply-at :
      (f g : KvKey → Option V) (op : KvOp KvKey V) (j : KvKey)
      → f j ≡ g j
      → apply f op j ≡ apply g op j
  apply-at f g (Reconcile.put k v) j h = ground (arith, h)
  apply-at f g (Reconcile.delete k) j h = ground (arith, h)

  apply_all-at :
      (f g : KvKey → Option V) (ops : List (KvOp KvKey V)) (j : KvKey)
      → f j ≡ g j
      → apply_all f ops j ≡ apply_all g ops j
  apply_all-at f g [] j h = h
  apply_all-at f g (op ∷ ops) j h =
      apply_all-at (apply f op) (apply g op) ops j (apply-at f g op j h)

  write_ops-stored :
      (s after : S) (ops : List (KvOp KvKey V)) (j : KvKey)
      → write_ops store codec s ops ≡ (ok tt, after)
      → stored store codec after j.text
        ≡ apply_all (λ (k : KvKey). stored store codec s k.text) ops j
  unfolding write_ops
  write_ops-stored s after [] j h = let e : s ≡ after = ap (λ p. p.1) h in rw e refl
  write_ops-stored s after (op ∷ ops) j h =
      let middle = (write_op store codec s op).1 in
      elim (Result-cases (write_op store codec s op).0) [
        | inr (e, w) ↦ ground (arith, w, h)
        | inl (u, w) ↦
            write_ops-stored middle after ops j (rw (w, write_ops) at h)
            ∙ apply_all-at (λ (k : KvKey). stored store codec middle k.text)
                (apply (λ (k : KvKey). stored store codec s k.text) op) ops j
                (write_op-stored s middle op j (ap (λ o. (o, middle)) w))
      ]

keys-get {κ} :
    {V : Type κ} (m : List (KvKey × V)) (k : KvKey) → contains (keys m) k ≡ is_some (get m k)
unfolding get
keys-get [] k = refl
keys-get ((j, v) ∷ m) k = ground (arith, keys-get m k, kv_key_Eq.beq_iff j k, kv_key_Eq.beq_iff k j)

-- What the writes leave at a key, when what was observed is the store's, or nothing.
left_at {κ} :
    {V : Type κ} ⦃ev : Eq V⦄ (watched : Bool) (desired old : Option V)
    → (if is_some (if watched then old else none) && not (is_some desired)
        then none
        else put_effect desired (if watched then old else none) old)
      ≡ (if watched then desired else or_else desired old)
left_at true none none = refl
left_at true none (some w) = refl
left_at true (some v) none = refl
left_at true (some v) (some w) = put_effect_self v (some w)
left_at false none old = refl
left_at false (some v) old = refl

reconcile-at {κ} :
    {V : Type κ} ⦃ev : Eq V⦄ (f : KvKey → Option V) (desired observed : List (KvKey × V))
    (watched : Bool) (k : KvKey)
    → distinct (keys desired) ≡ true
    → get observed k ≡ (if watched then f k else none)
    → apply_all f (reconcile desired observed) k
      ≡ (if watched then get desired k else or_else (get desired k) (f k))
unfolding reconcile
reconcile-at f desired observed watched k d o =
    ap (λ g. g k) (apply_all-append f (puts desired observed) (deletes desired (keys observed)))
    ∙ apply_all-deletes desired (keys observed) (apply_all f (puts desired observed)) k
    ∙ rw (keys-get observed k, keys-get desired k, apply_all-puts desired observed f k d, o)
        (left_at watched (get desired k) (f k))

keep_all {κ} : {V : Type κ} (o : Option V) → keep_some (λ v. true) o ≡ o
keep_all none = refl
keep_all (some v) = refl

-- A reconciliation that succeeds makes the store agree with the desired map: a key under the prefix
-- reads as it does in that map, and is absent when it is not in it; any other key reads as in the
-- map when it is there, and as before when it is not. The store is a map that lists its keys, the
-- codec reads what it wrote, and the desired map holds no key twice.
pub reconcile_prefix-stored {ℓ κ} :
    {S : Type ℓ} {V : Type κ} ⦃ev : Eq V⦄ (store : Store S) (codec : Codec V) (s after : S)
    (prefix : KvPrefix) (desired : List (KvKey × V)) (k : KvKey)
    → IsMap store
    → IsListing store
    → IsCodec codec
    → distinct (keys desired) ≡ true
    → reconcile_prefix store codec s prefix desired ≡ (ok tt, after)
    → stored store codec after k.text ≡ (
        if matches prefix k.text
        then get desired k
        else or_else (get desired k) (stored store codec s k.text))
unfolding reconcile_prefix scan_entries passing
reconcile_prefix-stored store codec s after prefix desired k map listing law d h =
    elim (Result-cases (scan_entries store codec prefix s)) [
      | inr (e, r) ↦ ground (arith, r)
      | inl (observed, r) ↦
          let f = λ (k : KvKey). stored store codec s k.text in
          let (sorted, look) =
            scan_all-lookup store codec (λ key. matches prefix key) (λ _. true) s observed listing
              r in
          write_ops-stored store codec map law s after (reconcile desired observed) k
            (rw (r, reconcile_prefix) at h)
          ∙ reconcile-at f desired observed (matches prefix k.text) k d (
              get-lookup observed k
              ∙ rw (look k) (ap (λ o. if matches prefix k.text then o else none) (keep_all (f k))))
    ]
