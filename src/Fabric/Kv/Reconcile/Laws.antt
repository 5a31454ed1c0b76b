-- ===== src/Fabric/Kv/Reconcile/Laws.antt =====
-- crates/br-util-nats-fabric/src/kv/reconcile.rs: the writes of `reconcile`, put to the observed map.
use br_rust_common.Base.{
  true, false, not, ◌&&◌, List, [], ◌∷◌, ◌++◌, Option, none, some, Eq, ◌==◌, if◌then◌else◌,
  contains, distinct, ◌≡◌, refl, arith, Bool-cases, inl, inr, ap,
}
use br_rust_common.Fabric.Kv.Reconcile.{
  KvOp, put, delete, keys, get, is_current, puts, deletes, reconcile,
}

module _ {ℓ κ} {K : Type ℓ} {V : Type κ} ⦃ek : Eq K⦄ where
  -- A store as a function of the key, and one write to it.
  abbrev pub apply : (K → Option V) → KvOp K V → K → Option V
  apply f (put k v) j = if k == j then some v else f j
  apply f (delete k) j = if k == j then none else f j

  -- The writes in order.
  abbrev pub apply_all : (K → Option V) → List (KvOp K V) → K → Option V
  apply_all f [] = f
  apply_all f (op ∷ ops) = apply_all (apply f op) ops

  pub apply_all-append :
      (f : K → Option V) (xs ys : List (KvOp K V))
      → apply_all f (xs ++ ys) ≡ apply_all (apply_all f xs) ys
  apply_all-append f [] ys = refl
  apply_all-append f (x ∷ xs) ys = apply_all-append (apply f x) xs ys

  pub get-eq-none : (m : List (K × V)) (k : K) → contains (keys m) k ≡ false → get m k ≡ none
  unfolding get
  get-eq-none [] k h = refl
  get-eq-none ((j, v) ∷ m) k h = ground (arith, get-eq-none m k, ek.beq_iff j k, ek.beq_iff k j)

  pub get-eq-some :
      (m : List (K × V)) (k : K) → contains (keys m) k ≡ true → (v : V) × (get m k ≡ some v)
  unfolding get
  get-eq-some [] k h = cc
  get-eq-some ((j, v) ∷ m) k h = elim (Bool-cases (j == k)) [
    | inl e ↦ (v, rw e refl)
    | inr n ↦ rw n (get-eq-some m k (ground (arith, ek.beq_iff j k, ek.beq_iff k j)))
  ]

abbrev pub put_effect {κ} : {V : Type κ} ⦃ev : Eq V⦄ → Option V → Option V → Option V → Option V
put_effect none observed old = old
put_effect (some v) observed old = if is_current observed v then old else some v

pub put_effect_self {κ} :
    {V : Type κ} ⦃ev : Eq V⦄ (v : V) (old : Option V) → put_effect (some v) old old ≡ some v
put_effect_self v none = refl
put_effect_self ⦃ev⦄ v (some w) = ground (arith, ev.beq_iff w v)

module _ {ℓ κ} {K : Type ℓ} {V : Type κ} ⦃ek : Eq K⦄ ⦃ev : Eq V⦄ where
  -- The puts set a desired key where it differs, and leave every other key alone.
  pub apply_all-puts :
      (desired observed : List (K × V)) (f : K → Option V) (k : K)
      → distinct (keys desired) ≡ true
      → apply_all f (puts desired observed) k ≡ put_effect (get desired k) (get observed k) (f k)
  unfolding puts get
  apply_all-puts [] observed f k d = refl
  apply_all-puts ((j, v) ∷ desired) observed f k d = ground (
    arith,
    apply_all-puts desired observed f k,
    apply_all-puts desired observed (apply f (put j v)) k,
    get-eq-none desired j,
    ek.beq_iff j k,
  )

  -- The deletes remove the keys that are not desired, and leave every other key alone.
  pub apply_all-deletes :
      (desired : List (K × V)) (ks : List K) (f : K → Option V) (k : K)
      → apply_all f (deletes desired ks) k
        ≡ (if contains ks k && not (contains (keys desired) k) then none else f k)
  unfolding deletes
  apply_all-deletes desired [] f k = refl
  apply_all-deletes desired (j ∷ ks) f k = ground (
    arith,
    apply_all-deletes desired ks f k,
    apply_all-deletes desired ks (apply f (delete j)) k,
    ek.beq_iff j k,
    ek.beq_iff k j,
  )

  -- After the writes, in order, each key reads as it does in the desired map, whatever was
  -- observed; the desired map holds no key twice.
  pub apply_all-reconcile :
      (desired observed : List (K × V)) (k : K)
      → distinct (keys desired) ≡ true
      → apply_all (get observed) (reconcile desired observed) k ≡ get desired k
  unfolding reconcile
  apply_all-reconcile desired observed k d = ground (
    arith,
    pointwise,
    apply_all-deletes desired (keys observed) (apply_all (get observed) (puts desired observed)) k,
    apply_all-puts desired observed (get observed) k d,
    get-eq-none observed k,
    desired_none,
    desired_some,
  )
    where
      pointwise :
          apply_all (get observed) (puts desired observed ++ deletes desired (keys observed)) k
          ≡ apply_all
              (apply_all (get observed) (puts desired observed))
              (deletes desired (keys observed))
              k
      pointwise =
          ap (λ (g : K → Option V). g k)
            (apply_all-append (get observed) (puts desired observed)
              (deletes desired (keys observed)))

      desired_none : contains (keys desired) k ≡ false → get desired k ≡ none
      desired_none h = get-eq-none desired k h

      desired_some :
          contains (keys desired) k ≡ true
          → put_effect (get desired k) (get observed k) (get observed k) ≡ get desired k
      desired_some h =
          let (v, s) = get-eq-some desired k h in rw s (put_effect_self v (get observed k))
