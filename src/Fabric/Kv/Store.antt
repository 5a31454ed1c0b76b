-- ===== src/Fabric/Kv/Store.antt =====
-- crates/br-util-nats-fabric/src/kv/codec.rs, revision.rs, scan.rs and reconcile_ops.rs: what the
-- projection reads from the store. JetStream's store is an argument, with the text of its errors;
-- so is serde's codec.
pub mod Laws
use br_rust_common.Base.{
  ℕ, Bool, true, false, not, Text, List, [], ◌∷◌, Option, none, some, Result, ok, err, ◌>>=◌,
  map_err, if◌then◌else◌, insert, Ord, text_Ord, any, text_lt, text_lt_irrefl, text_lt_trans,
  text_lt_total, ◌≡◌, refl, arith,
}
use br_rust_common.Fabric.Error
use br_rust_common.Fabric.Error.{FabricError}
use br_rust_common.Fabric.Kv.Key.{KvKey, KvPrefix, new_key, matches, kv_key_Eq}

pub data Operation : Type 0 where
  put delete purge : Operation

pub record Entry : Type 0 where
  pub key : Text
  pub value : Text
  pub operation : Operation
  pub revision : ℕ

pub data UpdateErrorKind : Type 0 where
  wrong_last_revision invalid_key timed_out other : UpdateErrorKind

pub data CreateErrorKind : Type 0 where
  already_exists invalid_key publish ack other : CreateErrorKind

-- The operations of `async_nats::jetstream::kv::Store`; a write gives the store after it.
pub record Store {ℓ} (S : Type ℓ) : Type ℓ where
  pub keys : S → Result (List (Result Text Text)) Text
  pub get : S → Text → Result (Option Text) Text
  pub entry : S → Text → Result (Option Entry) Text
  pub put : S → Text → Text → Result ℕ Text × S
  pub delete : S → Text → Result (Unit {0}) Text × S
  pub create : S → Text → Text → Result ℕ (CreateErrorKind × Text) × S
  pub update : S → Text → Text → ℕ → Result ℕ (UpdateErrorKind × Text) × S
  pub delete_expect_revision : S → Text → Option ℕ → Result (Unit {0}) (UpdateErrorKind × Text) × S

-- `serde_json::to_vec` and `from_slice`, with the text of their errors.
pub record Codec {ℓ} (V : Type ℓ) : Type ℓ where
  pub to_vec : V → Result Text Text
  pub from_slice : Text → Result V Text

-- The derived `Ord` of `KvKey`.
pub kv_key_total :
    (a b : KvKey) → text_lt a.text b.text ≡ false → text_lt b.text a.text ≡ false → a ≡ b
kv_key_total a b h k = ground (arith, text_lt_total a.text b.text)

unfoldable pub kv_key_Ord : Ord KvKey
kv_key_Ord = record {
  lt = λ a b. text_lt a.text b.text;
  lt_irrefl = λ a. text_lt_irrefl a.text;
  lt_trans = λ a b c. text_lt_trans a.text b.text c.text;
  lt_total = kv_key_total;
}

module _ {ℓ} {V : Type ℓ} (codec : Codec V) where
  unfoldable pub encode : V → Result Text FabricError
  encode value = map_err Error.serialization (codec.to_vec value)

  unfoldable pub decode : Text → Text → Result V FabricError
  decode key bytes = map_err (Error.decode key) (codec.from_slice bytes)

module _ {ℓ κ} {S : Type ℓ} {V : Type κ} (store : Store S) (codec : Codec V) where
  -- The rest of a turn, once the value's bytes are there.
  unfoldable pub keep_value :
      (V → Bool) → Text → Text → List (KvKey × V) → Result (List (KvKey × V)) FabricError
  keep_value copy_filter key bytes entries = decode codec key bytes >>= λ value.
      if copy_filter value
      then map_err Error.kv_key (new_key key)
        >>= (λ k. ok (insert ⦃ord = kv_key_Ord⦄ k value entries))
      else ok entries

  -- One turn of the loop of `scan_passing`, and of `scan_entries`, which keeps every value.
  unfoldable pub scan_key :
      (Text → Bool)
      → (V → Bool)
      → S
      → Result Text Text
      → List (KvKey × V)
      → Result (List (KvKey × V)) FabricError
  scan_key wanted copy_filter s item entries = map_err Error.kv item >>= λ key.
      if not (wanted key)
      then ok entries
      else map_err Error.kv (store.get s key) >>= (λ found. elim found [
        | none ↦ ok entries
        | some bytes ↦ keep_value copy_filter key bytes entries
      ])

  unfoldable pub scan_keys_from :
      (Text → Bool)
      → (V → Bool)
      → S
      → List (Result Text Text)
      → List (KvKey × V)
      → Result (List (KvKey × V)) FabricError
  scan_keys_from wanted copy_filter s [] entries = ok entries
  scan_keys_from wanted copy_filter s (item ∷ items) entries =
      scan_key wanted copy_filter s item entries >>= λ after.
      scan_keys_from wanted copy_filter s items after

  unfoldable pub scan_all : (Text → Bool) → (V → Bool) → S → Result (List (KvKey × V)) FabricError
  scan_all wanted copy_filter s = do
    items ← map_err Error.kv (store.keys s)
    scan_keys_from wanted copy_filter s items []

  unfoldable pub scan_entries : KvPrefix → S → Result (List (KvKey × V)) FabricError
  scan_entries prefix s = scan_all (λ key. matches prefix key) (λ _. true) s

  unfoldable pub scan_passing :
      List KvPrefix → (V → Bool) → S → Result (List (KvKey × V)) FabricError
  scan_passing prefixes copy_filter s =
      scan_all (λ key. any (λ p. matches p key) prefixes) copy_filter s
