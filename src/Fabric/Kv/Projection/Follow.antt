-- ===== src/Fabric/Kv/Projection/Follow.antt =====
-- crates/br-util-nats-fabric/src/kv/consumer.rs: what following the watch makes of the sink, against
-- a fold of the entries over the value at a key.
use br_rust_common.Base.{
  ℕ, Bool, true, false, Text, List, [], ◌∷◌, Option, none, Result, ok, err, ◌==◌, map_err,
  if◌then◌else◌, any, ◌≡◌, refl, arith, Result-cases, Bool-cases, inl, inr, ap, text_Eq,
}
use br_rust_common.Fabric.Kv.Key.{KvKey, KvPrefix, kv_key_Eq, matches, new_key, new_key-eq-ok_iff}
use br_rust_common.Fabric.Kv.Orphans.{decide_put}
use br_rust_common.Fabric.Kv.Store.{Codec, Entry, Operation, put, delete, purge, decode}
use br_rust_common.Fabric.Kv.Store.Laws.{keep_some, ok_value}
use br_rust_common.Fabric.Kv.Projection.{
  ProjectionSink, sink, apply_at, apply_entry, follow_entries,
}
use br_rust_common.Fabric.Kv.Projection.Laws.{SinkLaws}

module _ {ℓ} {V : Type ℓ} (codec : Codec V) where
  -- The value that an entry of the watch says its key has.
  abbrev pub written : Operation → Text → Option V
  written put value = ok_value (codec.from_slice value)
  written delete value = none
  written purge value = none

  -- The store, as a function of the key, after the entries of the watch in order.
  abbrev pub write_all : List (Result Entry Text) → Text → Option V → Option V
  write_all [] key old = old
  write_all (err e ∷ entries) key old = write_all entries key old
  write_all (ok entry ∷ entries) key old =
      write_all entries key (if key == entry.key then written entry.operation entry.value else old)

-- What the sink has at a key under a watched prefix, and elsewhere.
abbrev pub shown {ℓ} : {V : Type ℓ} → (V → Bool) → Bool → Option V → Option V → Option V
shown copy_filter true value old = keep_some copy_filter value
shown copy_filter false value old = old

module _ {ℓ κ μ} {K : Type ℓ} {V : Type κ} {X : Type μ} (codec : Codec V)
    (out : ProjectionSink K V X) (view : K → KvKey → Option V) (laws : SinkLaws out view)
    (copy_filter : V → Bool) where
  retract-view :
      (k after : K) (key j : KvKey)
      → map_err sink (out.retract k key).0 ≡ ok tt
      → (out.retract k key).1 ≡ after
      → view after j ≡ (if j == key then none else view k j)
  retract-view k after key j h e = elim (Result-cases (out.retract k key).0) [
    | inr (x, r) ↦ ground (arith, r)
    | inl (u, r) ↦ laws.retract_view k after key j (ground (arith, r, e))
  ]

  entry_at-view :
      (name value : Text) (operation : Operation) (revision : ℕ) (key j : KvKey) (k after : K)
      → apply_at out codec copy_filter
          (record { key = name; value = value; operation = operation; revision = revision })
          key
          k
        ≡ (ok tt, after)
      → view after j
        ≡ (if j == key then keep_some copy_filter (written codec operation value) else view k j)
  unfolding apply_at decide_put decode
  entry_at-view name value delete revision key j k after h =
      retract-view k after key j (ap (λ p. p.0) h) (ap (λ p. p.1) h)
  entry_at-view name value purge revision key j k after h =
      retract-view k after key j (ap (λ p. p.0) h) (ap (λ p. p.1) h)
  entry_at-view name value put revision key j k after h =
      elim (Result-cases (codec.from_slice value)) [
        | inr (e, d) ↦ ground (arith, d, h)
        | inl (v, d) ↦ elim (Bool-cases (copy_filter v)) [
          | inr f ↦ ground (arith, d, f, h, retract-view k after key j)
          | inl f ↦ elim (Result-cases (out.project k key v).0) [
            | inr (x, r) ↦ ground (arith, d, f, r, h)
            | inl (u, r) ↦ ground (arith, d, f, r, h, laws.project_view k after key j v)
          ]
        ]
      ]

  apply_entry-view :
      (entry : Entry) (j : KvKey) (k after : K)
      → apply_entry out codec copy_filter entry k ≡ (ok tt, after)
      → view after j ≡ (
          if j.text == entry.key
          then keep_some copy_filter (written codec entry.operation entry.value)
          else view k j)
  unfolding apply_entry
  apply_entry-view entry j k after h = elim (Result-cases (new_key entry.key)) [
    | inr (e, n) ↦ ground (arith, n, h)
    | inl (key, n) ↦
        let same : key.text ≡ entry.key = ((new_key-eq-ok_iff entry.key key).0 n).2 in
        rw same at (
          entry_at-view entry.key entry.value entry.operation entry.revision key j k after
            (rw (n, apply_entry) at h))
  ]

  same_watched :
      (prefixes : List KvPrefix) (a b : Text)
      → (a == b) ≡ true
      → any (λ p. matches p a) prefixes ≡ any (λ p. matches p b) prefixes
  same_watched prefixes a b h =
      ap (λ t. any (λ p. matches p t) prefixes) ((text_Eq.beq_iff a b).0 h)

  ignored-shown :
      (prefixes : List KvPrefix) (entry : Entry) (j : KvKey) (now value old : Option V)
      → any (λ p. matches p entry.key) prefixes ≡ false
      → now ≡ shown copy_filter (any (λ p. matches p j.text) prefixes) value old
      → now
        ≡ shown copy_filter
            (any (λ p. matches p j.text) prefixes)
            (if j.text == entry.key then written codec entry.operation entry.value else value)
            old
  ignored-shown prefixes entry j now value old w v = elim (Bool-cases (j.text == entry.key)) [
    | inl e ↦ ground (arith, same_watched prefixes j.text entry.key e, w, v)
    | inr n ↦ rw n v
  ]

  applied-shown :
      (prefixes : List KvPrefix) (entry : Entry) (j : KvKey) (now next value old : Option V)
      → any (λ p. matches p entry.key) prefixes ≡ true
      → now ≡ shown copy_filter (any (λ p. matches p j.text) prefixes) value old
      → next ≡ (
          if j.text == entry.key
          then keep_some copy_filter (written codec entry.operation entry.value)
          else now)
      → next
        ≡ shown copy_filter
            (any (λ p. matches p j.text) prefixes)
            (if j.text == entry.key then written codec entry.operation entry.value else value)
            old
  applied-shown prefixes entry j now next value old w v n =
      elim (Bool-cases (j.text == entry.key)) [
        | inl e ↦ ground (arith, same_watched prefixes j.text entry.key e, w, e, n)
        | inr e ↦ ground (arith, e, n, v)
      ]

  pub follow_entries-view :
      (prefixes : List KvPrefix) (entries : List (Result Entry Text)) (delivered d : Bool)
      (k after : K) (j : KvKey) (value old : Option V)
      → follow_entries out prefixes codec copy_filter delivered entries k ≡ (d, ok tt, after)
      → view k j ≡ shown copy_filter (any (λ p. matches p j.text) prefixes) value old
      → view after j
        ≡ shown copy_filter
            (any (λ p. matches p j.text) prefixes)
            (write_all codec entries j.text value)
            old
  unfolding follow_entries
  follow_entries-view prefixes [] delivered d k after j value old h v =
      let e : k ≡ after = ap (λ p. p.2) h in rw (← e) v
  follow_entries-view prefixes (err e ∷ entries) delivered d k after j value old h v =
      ground (arith, h)
  follow_entries-view prefixes (ok entry ∷ entries) delivered d k after j value old h v =
      elim (Bool-cases (any (λ p. matches p entry.key) prefixes)) [
        | inr w ↦
            follow_entries-view prefixes entries true d k after j
              (if j.text == entry.key then written codec entry.operation entry.value else value) old
              (rw (w, follow_entries) at h)
              (ignored-shown prefixes entry j (view k j) value old w v)
        | inl w ↦ elim (Result-cases (apply_entry out codec copy_filter entry k).0) [
          | inr (x, r) ↦ ground (arith, w, r, h)
          | inl (u, r) ↦
              let middle = (apply_entry out codec copy_filter entry k).1 in
              follow_entries-view prefixes entries true d middle after j
                (if j.text == entry.key then written codec entry.operation entry.value else value)
                old (rw (w, r, follow_entries) at h)
                (applied-shown prefixes entry j (view k j) (view middle j) value old w v
                  (apply_entry-view entry j k middle (ap (λ o. (o, middle)) r)))
        ]
      ]

pub shown-if {ℓ} :
    {V : Type ℓ} (copy_filter : V → Bool) (watched : Bool) (value old : Option V)
    → (if watched then keep_some copy_filter value else old) ≡ shown copy_filter watched value old
shown-if copy_filter true value old = refl
shown-if copy_filter false value old = refl
