-- ===== src/Fabric/Kv/Projection/Cycle.antt =====
-- crates/br-util-nats-fabric/src/kv/consumer.rs: a bootstrap and the watch after it, against the
-- store that other writers change meanwhile.
use br_rust_common.Base.{
  Bool, false, Text, List, [], ◌∷◌, Option, none, Result, ok, ◌==◌, if◌then◌else◌, any, ◌≡◌, refl,
  arith, Bool-cases, inl, inr, ap, text_Eq, ◌∙◌, sym, map, All, some,
}
use br_rust_common.Fabric.Kv.Key.{KvKey, KvPrefix, kv_key_Eq, matches}
use br_rust_common.Fabric.Kv.Store.{Store, Codec, Entry, Operation, put, delete, purge}
use br_rust_common.Fabric.Kv.Store.Laws.{IsListing, stored}
use br_rust_common.Fabric.Kv.Projection.{ProjectionSink, follow_once, bootstrap}
use br_rust_common.Fabric.Kv.Projection.Laws.{SinkLaws, bootstrap-view}
use br_rust_common.Fabric.Kv.Projection.Follow.{
  shown, written, write_all, follow_entries-view, shown-if,
}

-- The value in an entry.
abbrev pub entry_value : Operation → Text → Option Text
entry_value put value = some value
entry_value delete value = none
entry_value purge value = none

-- The store from one state to another, with the entry of each write between, in order, by whichever
-- writer: the store then has the entry's value at its key, and what it had elsewhere.
pub data History {ℓ} {S : Type ℓ} (store : Store S) : S → List Entry → S → Type ℓ where
  ends : (s : S) → History store s [] s
  wrote :
      (s t u : S) (entry : Entry) (entries : List Entry)
      → ((key : Text)
          → store.get t key ≡ (
              if key == entry.key
              then ok (entry_value entry.operation entry.value)
              else store.get s key))
      → History store t entries u
      → History store s (entry ∷ entries) u

abbrev pub ok_entry : Entry → Result Entry Text
ok_entry entry = ok entry

module _ {ℓ κ} {S : Type ℓ} {V : Type κ} (store : Store S) (codec : Codec V) where
  stored-wrote :
      (s t : S) (name value key : Text) (operation : Operation)
      → store.get t key
        ≡ (if key == name then ok (entry_value operation value) else store.get s key)
      → stored store codec t key
        ≡ (if key == name then written codec operation value else stored store codec s key)
  unfolding stored
  stored-wrote s t name value key put h = elim (Bool-cases (key == name)) [
    | inl e ↦ ground (arith, e, h)
    | inr e ↦ ground (arith, e, h)
  ]
  stored-wrote s t name value key delete h = elim (Bool-cases (key == name)) [
    | inl e ↦ ground (arith, e, h)
    | inr e ↦ ground (arith, e, h)
  ]
  stored-wrote s t name value key purge h = elim (Bool-cases (key == name)) [
    | inl e ↦ ground (arith, e, h)
    | inr e ↦ ground (arith, e, h)
  ]

  stored-History :
      (s t : S) (entries : List Entry) (key : Text)
      → History store s entries t
      → stored store codec t key
        ≡ write_all codec (map ok_entry entries) key (stored store codec s key)
  stored-History s _ _ key (ends _) = refl
  stored-History s u _ key (wrote _ t _ entry entries w history) =
      stored-History t u entries key history
      ∙ ap (write_all codec (map ok_entry entries) key)
          (stored-wrote s t entry.key entry.value key entry.operation (w key))

  write_all-absent :
      (entries : List Entry) (key : Text) (value : Option V)
      → All (λ entry. (key == entry.key) ≡ false) entries
      → write_all codec (map ok_entry entries) key value ≡ value
  write_all-absent [] key value _ = refl
  write_all-absent (entry ∷ entries) key value (n, a) = rw n (write_all-absent entries key value a)

-- A cycle of the projection keeps up with the store, but for the window between the bootstrap's scan
-- and the subscription of the watch. The bootstrap scans one state of the store and succeeds; then
-- the writes of `window` happen; then the watch subscribes, gives the entry of each later write in
-- order, and ends without an error. At a key that no write of the window is of, the sink reads under
-- a watched prefix as the store has the key in the end, when the filter passes that value, and is
-- absent otherwise, deletions included; every other key reads as before the cycle. The store's
-- listing names every key that has a value, and the sink is a map.
pub bootstrap-follow_once {ℓ κ μ ν} :
    {S : Type ℓ} {K : Type κ} {V : Type μ} {X : Type ν} (store : Store S) (codec : Codec V)
    (out : ProjectionSink K V X) (view : K → KvKey → Option V) (prefixes : List KvPrefix)
    (copy_filter : V → Bool) (scanned subscribed last : S) (window entries : List Entry)
    (delivered : Bool) (k middle after : K) (j : KvKey)
    → IsListing store
    → SinkLaws out view
    → bootstrap store codec out prefixes copy_filter scanned k ≡ (ok tt, middle)
    → History store scanned window subscribed
    → All (λ entry. (j.text == entry.key) ≡ false) window
    → History store subscribed entries last
    → follow_once out prefixes codec copy_filter (ok (map ok_entry entries)) middle
      ≡ (delivered, ok tt, after)
    → view after j
      ≡ shown copy_filter
          (any (λ p. matches p j.text) prefixes)
          (stored store codec last j.text)
          (view k j)
unfolding follow_once
bootstrap-follow_once store codec out view prefixes copy_filter scanned subscribed last window
      entries delivered k middle after j listing laws b missed quiet watched f =
    let watch = any (λ p. matches p j.text) prefixes in
    let kept =
      stored-History store codec scanned subscribed window j.text missed
      ∙ write_all-absent store codec window j.text (stored store codec scanned j.text) quiet in
    let reached = stored-History store codec subscribed last entries j.text watched in
    let settled =
      bootstrap-view store codec out view prefixes copy_filter scanned k middle j listing laws b
      ∙ shown-if copy_filter watch (stored store codec scanned j.text) (view k j) in
    follow_entries-view codec out view laws copy_filter prefixes (map ok_entry entries) false
      delivered middle after j (stored store codec scanned j.text) (view k j) f settled
    ∙ ap (λ v. shown copy_filter watch v (view k j))
        (sym (reached ∙ ap (write_all codec (map ok_entry entries) j.text) kept))
