-- ===== src/Fabric/Kv/Publisher.antt =====
-- crates/br-util-nats-fabric/src/kv/publisher.rs and revision.rs: the side that writes. The store
-- and the codec are arguments; an operation gives the store after it.
pub mod Laws
pub mod Revision
use br_rust_common.Base.{
  ℕ, Text, List, [], ◌∷◌, Option, none, some, Result, ok, err, map_err, Eq, ◌>>=◌,
}
use br_rust_common.Fabric.Error
use br_rust_common.Fabric.Error.{FabricError, revision_conflict, key_already_exists}
use br_rust_common.Fabric.Kv.Key.{KvKey, KvPrefix, kv_key_Eq}
use br_rust_common.Fabric.Kv.Reconcile
use br_rust_common.Fabric.Kv.Reconcile.{KvOp, reconcile}
use br_rust_common.Fabric.Kv.Store.{
  Store, Codec, encode, decode, scan_entries, UpdateErrorKind, wrong_last_revision, CreateErrorKind,
  already_exists, Entry, Operation, put, delete, purge,
}

unfoldable pub map_revision_error : KvKey → ℕ → UpdateErrorKind → Text → FabricError
map_revision_error key expected wrong_last_revision detail = revision_conflict key.text expected
map_revision_error key expected _ detail = Error.kv detail

unfoldable pub map_create_error : KvKey → CreateErrorKind → Text → FabricError
map_create_error key already_exists detail = key_already_exists key.text
map_create_error key _ detail = Error.kv detail

module _ {ℓ κ} {S : Type ℓ} {V : Type κ} (store : Store S) (codec : Codec V) where
  -- The entry's value, when its operation is a put.
  unfoldable pub live_value : KvKey → Entry → Result (Option (V × ℕ)) FabricError
  live_value key entry = elim entry.operation [
    | delete ↦ ok none
    | purge ↦ ok none
    | put ↦ decode codec key.text entry.value >>= λ value. ok (some (value, entry.revision))
  ]

  unfoldable pub read_with_revision : S → KvKey → Result (Option (V × ℕ)) FabricError
  read_with_revision s key = map_err Error.kv (store.entry s key.text) >>= λ found. elim found [
    | none ↦ ok none
    | some entry ↦ live_value key entry
  ]

  unfoldable pub create_absent : S → KvKey → V → Result ℕ FabricError × S
  create_absent s key value = elim (encode codec value) [
    | err e ↦ (err e, s)
    | ok bytes ↦
        let (r, after) = store.create s key.text bytes in
        (map_err (λ e. map_create_error key e.0 e.1) r, after)
  ]

  unfoldable pub update_expecting : S → KvKey → V → ℕ → Result ℕ FabricError × S
  update_expecting s key value expected = elim (encode codec value) [
    | err e ↦ (err e, s)
    | ok bytes ↦
        let (r, after) = store.update s key.text bytes expected in
        (map_err (λ e. map_revision_error key expected e.0 e.1) r, after)
  ]

  unfoldable pub delete_expecting : S → KvKey → ℕ → Result (Unit {0}) FabricError × S
  delete_expecting s key expected =
      let (r, after) = store.delete_expect_revision s key.text (some expected) in
      (map_err (λ e. map_revision_error key expected e.0 e.1) r, after)

  abbrev void : Result ℕ Text → Result (Unit {0}) FabricError
  void (ok _) = ok tt
  void (err e) = err (Error.kv e)

  unfoldable pub put_value : S → KvKey → V → Result (Unit {0}) FabricError × S
  put_value s key value = elim (encode codec value) [
    | err e ↦ (err e, s)
    | ok bytes ↦ let (r, after) = store.put s key.text bytes in (void r, after)
  ]

  unfoldable pub retract : S → KvKey → Result (Unit {0}) FabricError × S
  retract s key = let (r, after) = store.delete s key.text in (map_err Error.kv r, after)

  -- The body of the loop of `reconcile`, and the loop.
  unfoldable pub write_op : S → KvOp KvKey V → Result (Unit {0}) FabricError × S
  write_op s (Reconcile.put key value) = put_value s key value
  write_op s (Reconcile.delete key) = retract s key

  unfoldable pub write_ops : S → List (KvOp KvKey V) → Result (Unit {0}) FabricError × S
  write_ops s [] = (ok tt, s)
  write_ops s (op ∷ ops) =
      let (r, after) = write_op s op in
      elim r [ ok _ ↦ write_ops after ops | err e ↦ (err e, after) ]

  unfoldable pub reconcile_prefix :
      ⦃ev : Eq V⦄ → S → KvPrefix → List (KvKey × V) → Result (Unit {0}) FabricError × S
  reconcile_prefix s prefix desired = elim (scan_entries store codec prefix s) [
    | err e ↦ (err e, s)
    | ok observed ↦ write_ops s (reconcile desired observed)
  ]
