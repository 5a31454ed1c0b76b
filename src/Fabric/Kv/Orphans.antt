-- ===== src/Fabric/Kv/Orphans.antt =====
-- crates/br-util-nats-fabric/src/kv/reconcile_ops.rs: what a projection copies and what it drops.
use br_rust_common.Base.{
  Bool, not, ◌&&◌, List, [], ◌∷◌, contains, any, if◌then◌else◌, ◌≡◌, refl, arith,
}
use br_rust_common.Fabric.Kv.Key.{KvKey, kv_key_Eq, KvPrefix, matches}

pub data EntryAction : Type 0 where
  project retract : EntryAction

unfoldable pub decide_put {ℓ} : {V : Type ℓ} → (V → Bool) → V → EntryAction
decide_put copy_filter value = if copy_filter value then project else retract

-- The two filters over the observed keys, in their order.
unfoldable pub orphans : List KvKey → List KvKey → List KvPrefix → List KvKey
orphans [] desired prefixes = []
orphans (key ∷ observed) desired prefixes =
    let rest = orphans observed desired prefixes in
    if any (λ p. matches p key.text) prefixes && not (contains desired key)
    then key ∷ rest
    else rest

-- A key is an orphan exactly when it is observed, stands under a watched prefix and is not desired.
pub contains-orphans :
    (observed desired : List KvKey) (prefixes : List KvPrefix) (k : KvKey)
    → contains (orphans observed desired prefixes) k
      ≡ (contains observed k && (any (λ p. matches p k.text) prefixes && not (contains desired k)))
unfolding orphans
contains-orphans [] desired prefixes k = refl
contains-orphans (key ∷ observed) desired prefixes k =
    ground (arith, contains-orphans observed desired prefixes k, kv_key_Eq.beq_iff k key)
