-- ===== src/Fabric/Kv/Reconcile.antt =====
-- crates/br-util-nats-fabric/src/kv/reconcile.rs: the difference of two maps, as writes.
-- A `BTreeMap` is the list of its entries in the order of iteration, each key once.
pub mod Laws
use br_rust_common.Base.{
  Bool, false, List, [], ◌∷◌, ◌++◌, Option, none, some, Eq, ◌==◌, if◌then◌else◌, map, contains,
}

pub data KvOp {ℓ κ} (K : Type ℓ) (V : Type κ) : Type (ℓ ⊔ κ) where
  put : K → V → KvOp K V
  delete : K → KvOp K V

abbrev pub keys {ℓ κ} : {K : Type ℓ} {V : Type κ} → List (K × V) → List K
keys m = map (λ entry. entry.0) m

module _ {ℓ κ} {K : Type ℓ} {V : Type κ} ⦃ek : Eq K⦄ where
  -- `BTreeMap::get`.
  unfoldable pub get : List (K × V) → K → Option V
  get [] k = none
  get ((j, v) ∷ m) k = if j == k then some v else get m k

abbrev pub is_current {κ} : {V : Type κ} ⦃ev : Eq V⦄ → Option V → V → Bool
is_current none value = false
is_current (some current) value = current == value

module _ {ℓ κ} {K : Type ℓ} {V : Type κ} ⦃ek : Eq K⦄ ⦃ev : Eq V⦄ where
  -- The first loop, over what is desired.
  unfoldable pub puts : List (K × V) → List (K × V) → List (KvOp K V)
  puts [] observed = []
  puts ((key, value) ∷ desired) observed =
      let rest = puts desired observed in
      if is_current (get observed key) value then rest else put key value ∷ rest

  -- The second loop, over the observed keys.
  unfoldable pub deletes : List (K × V) → List K → List (KvOp K V)
  deletes desired [] = []
  deletes desired (key ∷ observed) =
      let rest = deletes desired observed in
      if contains (keys desired) key then rest else delete key ∷ rest

  unfoldable pub reconcile : List (K × V) → List (K × V) → List (KvOp K V)
  reconcile desired observed = puts desired observed ++ deletes desired (keys observed)
