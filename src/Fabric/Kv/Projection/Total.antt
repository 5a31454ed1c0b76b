-- ===== src/Fabric/Kv/Projection/Total.antt =====
-- crates/br-util-nats-fabric/src/kv/consumer.rs: a bootstrap succeeds when each call it makes does.
use br_rust_common.Base.{
  Bool, true, false, Text, List, [], ◌∷◌, none, some, Result, ok, any, All, if◌then◌else◌, ◌≡◌,
  refl, arith, insert,
}
use br_rust_common.Fabric.Kv.Key.{KvKey, KvPrefix, matches, new_key, kv_key_Eq}
use br_rust_common.Fabric.Kv.Orphans.{orphans}
use br_rust_common.Fabric.Kv.Reconcile.{keys}
use br_rust_common.Fabric.Kv.Store.{
  Store, Codec, decode, keep_value, kv_key_Ord, scan_key, scan_keys_from, scan_all, scan_passing,
}
use br_rust_common.Fabric.Kv.Projection.{
  ProjectionSink, project_all, retract_all, settle, bootstrap,
}

module _ {ℓ κ} {S : Type ℓ} {V : Type κ} (store : Store S) (codec : Codec V) (wanted : Text → Bool)
    (copy_filter : V → Bool) (s : S) where
  -- The listing's item can be read: it is a key that is not wanted, has no value any more, or is a
  -- valid key of a value that decodes.
  pub data Reads : Result Text Text → Type κ where
    unwanted : (key : Text) → wanted key ≡ false → Reads (ok key)
    gone : (key : Text) → wanted key ≡ true → store.get s key ≡ ok none → Reads (ok key)
    present :
        (key bytes : Text) (v : V) (k : KvKey)
        → wanted key ≡ true
        → store.get s key ≡ ok (some bytes)
        → codec.from_slice bytes ≡ ok v
        → new_key key ≡ ok k
        → Reads (ok key)

  keep_value_total :
      (key bytes : Text) (v : V) (k : KvKey) (entries : List (KvKey × V))
      → codec.from_slice bytes ≡ ok v
      → new_key key ≡ ok k
      → (after : List (KvKey × V)) × (keep_value store codec copy_filter key bytes entries
          ≡ ok after)
  unfolding keep_value decode
  keep_value_total key bytes v k entries d n = (
    if copy_filter v then insert ⦃ord = kv_key_Ord⦄ k v entries else entries,
    ground (arith, d, n),
  )

  scan_key_total :
      (item : Result Text Text) (entries : List (KvKey × V))
      → Reads item
      → (after : List (KvKey × V)) × (scan_key store codec wanted copy_filter s item entries
          ≡ ok after)
  unfolding scan_key
  scan_key_total item entries (unwanted key w) = (entries, ground (arith, w))
  scan_key_total item entries (gone key w g) = (entries, ground (arith, w, g))
  scan_key_total item entries (present key bytes v k w g d n) =
      let (after, e) = keep_value_total key bytes v k entries d n in
      (after, ground (arith, w, g, e))

  scan_keys_from_total :
      (items : List (Result Text Text)) (entries : List (KvKey × V))
      → All Reads items
      → (after : List (KvKey × V)) × (scan_keys_from store codec wanted copy_filter s items entries
          ≡ ok after)
  unfolding scan_keys_from
  scan_keys_from_total [] entries h = (entries, refl)
  scan_keys_from_total (item ∷ items) entries h =
      let (middle, e) = scan_key_total item entries h.0 in
      let (after, r) = scan_keys_from_total items middle h.1 in (after, rw e r)

-- A sink whose calls all succeed.
pub record IsTotal {ℓ κ μ} {K : Type ℓ} {V : Type κ} {X : Type μ} (out : ProjectionSink K V X)
    : Type (ℓ ⊔ κ ⊔ μ) where
  pub projects : (k : K) (key : KvKey) (v : V) → (out.project k key v).0 ≡ ok tt
  pub retracts : (k : K) (key : KvKey) → (out.retract k key).0 ≡ ok tt
  pub knows : (k : K) → (observed : List KvKey) × (out.known_keys k ≡ ok observed)

module _ {ℓ κ μ} {K : Type ℓ} {V : Type κ} {X : Type μ} (out : ProjectionSink K V X)
    (total : IsTotal out) where
  project_all_total : (k : K) (m : List (KvKey × V)) → (project_all out k m).0 ≡ ok tt
  unfolding project_all
  project_all_total k [] = refl
  project_all_total k ((key, v) ∷ m) =
      rw (total.projects k key v, project_all) (project_all_total (out.project k key v).1 m)

  retract_all_total : (k : K) (ks : List KvKey) → (retract_all out k ks).0 ≡ ok tt
  unfolding retract_all
  retract_all_total k [] = refl
  retract_all_total k (key ∷ ks) =
      rw (total.retracts k key, retract_all) (retract_all_total (out.retract k key).1 ks)

  settle_total :
      (prefixes : List KvPrefix) (desired : List (KvKey × V)) (k : K)
      → (settle out prefixes desired k).0 ≡ ok tt
  unfolding settle
  settle_total prefixes desired k =
      let middle = (project_all out k desired).1 in
      let (observed, e) = total.knows middle in
      rw (project_all_total k desired, e, settle)
        (retract_all_total middle (orphans observed (keys desired) prefixes))

scan_passing_total {ℓ κ} :
    {S : Type ℓ} {V : Type κ} (store : Store S) (codec : Codec V) (prefixes : List KvPrefix)
    (copy_filter : V → Bool) (s : S) (items : List (Result Text Text))
    → store.keys s ≡ ok items
    → All (Reads store codec (λ key. any (λ p. matches p key) prefixes) copy_filter s) items
    → (desired : List (KvKey × V)) × (scan_passing store codec prefixes copy_filter s ≡ ok desired)
unfolding scan_passing scan_all
scan_passing_total store codec prefixes copy_filter s items listed reads =
    let (desired, e) =
      scan_keys_from_total store codec (λ key. any (λ p. matches p key) prefixes) copy_filter s
        items [] reads in
    (desired, ground (arith, listed, e))

-- A bootstrap succeeds when the store lists its keys, each of them can be read, and the sink's
-- calls succeed.
pub bootstrap_total {ℓ κ μ ν} :
    {S : Type ℓ} {K : Type κ} {V : Type μ} {X : Type ν} (store : Store S) (codec : Codec V)
    (out : ProjectionSink K V X) (prefixes : List KvPrefix) (copy_filter : V → Bool) (s : S) (k : K)
    (items : List (Result Text Text))
    → store.keys s ≡ ok items
    → All (Reads store codec (λ key. any (λ p. matches p key) prefixes) copy_filter s) items
    → IsTotal out
    → (bootstrap store codec out prefixes copy_filter s k).0 ≡ ok tt
unfolding bootstrap
bootstrap_total store codec out prefixes copy_filter s k items listed reads total =
    let (desired, e) = scan_passing_total store codec prefixes copy_filter s items listed reads in
    rw (e, bootstrap) (settle_total out total prefixes desired k)
