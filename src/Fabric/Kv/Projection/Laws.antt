-- ===== src/Fabric/Kv/Projection/Laws.antt =====
-- crates/br-util-nats-fabric/src/kv/consumer.rs: what a bootstrap makes of the sink. The sink is
-- seen as a function of the key.
use br_rust_common.Base.{
  Bool, true, false, not, ◌&&◌, List, [], ◌∷◌, Option, none, some, ok, ◌==◌, if◌then◌else◌,
  contains, any, lookup, lookup-before, Sorted, ◌≡◌, refl, arith, Result-cases, inl, inr, ◌∙◌, ap,
}
use br_rust_common.Fabric.Kv.Key.{KvKey, KvPrefix, kv_key_Eq, matches}
use br_rust_common.Fabric.Kv.Orphans.{orphans, contains-orphans}
use br_rust_common.Fabric.Kv.Reconcile.{keys}
use br_rust_common.Fabric.Kv.Store.{Store, Codec, kv_key_Ord, scan_passing}
use br_rust_common.Fabric.Kv.Store.Laws.{
  IsListing, passing, scan_all-lookup, or_else, keep_some, stored,
}
use br_rust_common.Fabric.Kv.Projection.{
  ProjectionSink, project_all, retract_all, settle, bootstrap,
}

abbrev pub is_some {ℓ} : {V : Type ℓ} → Option V → Bool
is_some none = false
is_some (some _) = true

-- What is left at a key: an orphan goes, anything else stays as projected.
settled {ℓ} :
    {V : Type ℓ} (watched : Bool) (desired old : Option V)
    → (if is_some (or_else desired old) && (watched && not (is_some desired))
        then none
        else or_else desired old)
      ≡ (if watched then desired else or_else desired old)
settled true none none = refl
settled true none (some v) = refl
settled true (some v) old = refl
settled false none none = refl
settled false none (some v) = refl
settled false (some v) old = refl

module _ {ℓ κ μ} {K : Type ℓ} {V : Type κ} {X : Type μ} (out : ProjectionSink K V X) where
  -- What a sink promises of the calls that succeed: it is a map, read by `view`.
  pub record SinkLaws (view : K → KvKey → Option V) : Type (ℓ ⊔ κ ⊔ μ) where
    pub project_view :
        (k after : K) (key j : KvKey) (v : V)
        → out.project k key v ≡ (ok tt, after)
        → view after j ≡ (if j == key then some v else view k j)
    pub retract_view :
        (k after : K) (key j : KvKey)
        → out.retract k key ≡ (ok tt, after)
        → view after j ≡ (if j == key then none else view k j)
    pub known_view :
        (k : K) (observed : List KvKey) (j : KvKey)
        → out.known_keys k ≡ ok observed
        → contains observed j ≡ is_some (view k j)

  module _ (view : K → KvKey → Option V) (laws : SinkLaws view) where
    project_all-view :
        (k after : K) (desired : List (KvKey × V)) (j : KvKey)
        → project_all out k desired ≡ (ok tt, after)
        → Sorted ⦃ord = kv_key_Ord⦄ desired
        → view after j ≡ or_else (lookup desired j) (view k j)
    unfolding project_all lookup
    project_all-view k after [] j h s = ground arith
    project_all-view k after ((key, v) ∷ desired) j h s =
        elim (Result-cases (out.project k key v).0) [
          | inr (e, r) ↦ ground (arith, r)
          | inl (u, r) ↦ ground (
            arith,
            r,
            laws.project_view k (out.project k key v).1 key j v
                (ap (λ o. (o, (out.project k key v).1)) r),
            project_all-view (out.project k key v).1 after desired j (rw (r, project_all) at h) s.1,
            lookup-before ⦃ord = kv_key_Ord⦄ key desired s.0,
            kv_key_Eq.beq_iff j key,
          )
        ]

    retract_all-view :
        (k after : K) (ks : List KvKey) (j : KvKey)
        → retract_all out k ks ≡ (ok tt, after)
        → view after j ≡ (if contains ks j then none else view k j)
    unfolding retract_all
    retract_all-view k after [] j h = ground arith
    retract_all-view k after (key ∷ ks) j h = elim (Result-cases (out.retract k key).0) [
      | inr (e, r) ↦ ground (arith, r)
      | inl (u, r) ↦ ground (
        arith,
        r,
        laws.retract_view k (out.retract k key).1 key j (ap (λ o. (o, (out.retract k key).1)) r),
        retract_all-view (out.retract k key).1 after ks j (rw (r, retract_all) at h),
      )
    ]

    contains-keys : (m : List (KvKey × V)) (j : KvKey) → contains (keys m) j ≡ is_some (lookup m j)
    unfolding lookup
    contains-keys [] j = refl
    contains-keys ((k, v) ∷ m) j = ground (arith, contains-keys m j)

    settle-view :
        (prefixes : List KvPrefix) (desired : List (KvKey × V)) (k after : K) (j : KvKey)
        → settle out prefixes desired k ≡ (ok tt, after)
        → Sorted ⦃ord = kv_key_Ord⦄ desired
        → view after j ≡ (
            if any (λ p. matches p j.text) prefixes
            then lookup desired j
            else or_else (lookup desired j) (view k j))
    unfolding settle
    settle-view prefixes desired k after j h s =
        let middle = (project_all out k desired).1 in
        elim (Result-cases (project_all out k desired).0) [
          | inr (e, r) ↦ ground (arith, r)
          | inl (u, r) ↦ elim (Result-cases (out.known_keys middle)) [
            | inr (e, q) ↦ ground (arith, r, q)
            | inl (observed, q) ↦
                let projected = project_all-view k middle desired j (ap (λ o. (o, middle)) r) s in
                let known = laws.known_view middle observed j q in
                let dropped =
                  retract_all-view middle after (orphans observed (keys desired) prefixes) j
                    (rw (r, q, settle) at h) in
                let orphan = contains-orphans observed (keys desired) prefixes j in
                dropped
                ∙ rw (orphan, known, contains-keys desired j, projected)
                    (settled (any (λ p. matches p j.text) prefixes) (lookup desired j) (view k j))
          ]
        ]

under {ℓ} :
    {V : Type ℓ} (watched : Bool) (desired old : Option V)
    → (if watched
        then (if watched then desired else none)
        else or_else (if watched then desired else none) old)
      ≡ (if watched then desired else old)
under true desired old = refl
under false desired old = refl

-- The projection refines the store: after a bootstrap that succeeds, a key under a watched prefix
-- reads in the sink as the value that the store has for it, when the filter passes that value, and
-- is absent otherwise; every other key reads as it did. The store's listing names every key that
-- has a value, and the sink is a map.
pub bootstrap-view {ℓ κ μ ν} :
    {S : Type ℓ} {K : Type κ} {V : Type μ} {X : Type ν} (store : Store S) (codec : Codec V)
    (out : ProjectionSink K V X) (view : K → KvKey → Option V) (prefixes : List KvPrefix)
    (copy_filter : V → Bool) (s : S) (k after : K) (j : KvKey)
    → IsListing store
    → SinkLaws out view
    → bootstrap store codec out prefixes copy_filter s k ≡ (ok tt, after)
    → view after j ≡ (
        if any (λ p. matches p j.text) prefixes
        then keep_some copy_filter (stored store codec s j.text)
        else view k j)
unfolding bootstrap scan_passing passing
bootstrap-view store codec out view prefixes copy_filter s k after j listing laws h =
    elim (Result-cases (scan_passing store codec prefixes copy_filter s)) [
      | inr (e, r) ↦ ground (arith, r)
      | inl (desired, r) ↦
          let (sorted, look) =
            scan_all-lookup store codec (λ key. any (λ p. matches p key) prefixes) copy_filter s
              desired listing r in
          settle-view out view laws prefixes desired k after j (rw (r, bootstrap) at h) sorted
          ∙ rw (look j) (
              under (any (λ p. matches p j.text) prefixes)
                (keep_some copy_filter (stored store codec s j.text)) (view k j))
    ]
