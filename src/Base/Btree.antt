-- ===== src/Base/Btree.antt =====
-- `BTreeMap` as the list of its entries in the order of the keys, each key once, and the order of
-- byte strings.
use br_rust_common.Base.Tests.{Eq, ◌==◌, ltb, nat_eq, if◌then◌else◌, Bool-cases}
use mathlib.Core.Logic.{inl, inr}
use br_rust_common.Base.Bytes.{Text, text_Eq}
use br_rust_common.Base.Lists.{All}
use mathlib.Core.Path.{◌≡◌, refl}
use mathlib.Core.Bool.{Bool, true, false, ◌&&◌, ◌||◌}
use mathlib.Core.Option.{Option, none, some}
use mathlib.Core.List.{List, [], ◌∷◌}
use native.Mathlib.Omega.{arith}

-- Rust's `Ord`, by its strict order.
pub record Ord {ℓ} (A : Type ℓ) ⦃e : Eq A⦄ : Type ℓ where
  pub lt : A → A → Bool
  pub lt_irrefl : (a : A) → lt a a ≡ false
  pub lt_trans : (a b c : A) → lt a b ≡ true → lt b c ≡ true → lt a c ≡ true
  pub lt_total : (a b : A) → lt a b ≡ false → lt b a ≡ false → a ≡ b

-- The order of `[u8]`, which is the order of `str`.
abbrev pub text_lt : Text → Text → Bool
text_lt [] [] = false
text_lt [] (d ∷ t) = true
text_lt (c ∷ s) [] = false
text_lt (c ∷ s) (d ∷ t) = ltb c d || (nat_eq c d && text_lt s t)

pub text_lt_irrefl : (s : Text) → text_lt s s ≡ false
text_lt_irrefl [] = refl
text_lt_irrefl (c ∷ s) = ground (arith, text_lt_irrefl s)

pub text_lt_trans : (a b c : Text) → text_lt a b ≡ true → text_lt b c ≡ true → text_lt a c ≡ true
text_lt_trans [] b [] h k = ground (arith, b)
text_lt_trans [] b (z ∷ c) h k = refl
text_lt_trans (x ∷ a) [] c h k = ground arith
text_lt_trans (x ∷ a) (y ∷ b) [] h k = ground arith
text_lt_trans (x ∷ a) (y ∷ b) (z ∷ c) h k = ground (arith, text_lt_trans a b c)

pub text_lt_total : (a b : Text) → text_lt a b ≡ false → text_lt b a ≡ false → a ≡ b
text_lt_total [] [] h k = refl
text_lt_total [] (y ∷ b) h k = ground arith
text_lt_total (x ∷ a) [] h k = ground arith
text_lt_total (x ∷ a) (y ∷ b) h k = ground (arith, text_lt_total a b)

instance abbrev pub text_Ord : Ord Text
text_Ord = record {
  lt = text_lt;
  lt_irrefl = text_lt_irrefl;
  lt_trans = text_lt_trans;
  lt_total = text_lt_total;
}

lt_of_not {ℓ} :
    {K : Type ℓ} ⦃ek : Eq K⦄ ⦃ord : Ord K⦄ (k j : K)
    → (k == j) ≡ false
    → ord.lt k j ≡ false
    → ord.lt j k ≡ true
lt_of_not ⦃ek⦄ ⦃ord⦄ k j n g = ground (arith, ord.lt_total k j, ek.beq_iff k j)

module _ {ℓ κ} {K : Type ℓ} {V : Type κ} ⦃ek : Eq K⦄ where
  -- `BTreeMap::get`.
  unfoldable pub lookup : List (K × V) → K → Option V
  lookup [] k = none
  lookup ((j, v) ∷ m) k = if k == j then some v else lookup m k

module _ {ℓ κ} {K : Type ℓ} {V : Type κ} ⦃ek : Eq K⦄ ⦃ord : Ord K⦄ where
  -- `BTreeMap::insert`.
  unfoldable pub insert : K → V → List (K × V) → List (K × V)
  insert k v [] = (k, v) ∷ []
  insert k v ((j, w) ∷ m) =
      let rest = insert k v m in
      if k == j then (k, v) ∷ m else if ord.lt k j then (k, v) ∷ (j, w) ∷ m else (j, w) ∷ rest

  -- The keys stand in order, each once.
  abbrev pub Sorted : List (K × V) → Type 0
  Sorted [] = Unit
  Sorted ((k, v) ∷ m) = All (λ entry. ord.lt k entry.0 ≡ true) m × Sorted m

  pub lookup-insert :
      (k : K) (v : V) (m : List (K × V)) (j : K)
      → lookup (insert k v m) j ≡ (if j == k then some v else lookup m j)
  unfolding lookup insert
  lookup-insert k v [] j = refl
  lookup-insert k v ((i, w) ∷ m) j =
      ground (arith, lookup-insert k v m j, ek.beq_iff k i, ek.beq_iff j k, ek.beq_iff j i)

  All-lt_trans :
      (k j : K) (m : List (K × V))
      → ord.lt k j ≡ true
      → All (λ entry. ord.lt j entry.0 ≡ true) m
      → All (λ entry. ord.lt k entry.0 ≡ true) m
  All-lt_trans k j [] h hs = tt
  All-lt_trans k j ((i, w) ∷ m) h hs = (ord.lt_trans k j i h hs.0, All-lt_trans k j m h hs.1)

  All-insert :
      (i k : K) (v : V) (m : List (K × V))
      → ord.lt i k ≡ true
      → All (λ entry. ord.lt i entry.0 ≡ true) m
      → All (λ entry. ord.lt i entry.0 ≡ true) (insert k v m)
  unfolding insert
  All-insert i k v [] h hs = (h, tt)
  All-insert i k v ((j, w) ∷ m) h hs = elim (Bool-cases (k == j)) [
    | inl e ↦ rw e (h, hs.1)
    | inr n ↦ elim (Bool-cases (ord.lt k j)) [
      | inl l ↦ rw (n, l) (h, hs)
      | inr g ↦ rw (n, g) (hs.0, All-insert i k v m h hs.1)
    ]
  ]

  pub insert-Sorted : (k : K) (v : V) (m : List (K × V)) → Sorted m → Sorted (insert k v m)
  unfolding insert
  insert-Sorted k v [] s = (tt, tt)
  insert-Sorted k v ((j, w) ∷ m) s = elim (Bool-cases (k == j)) [
    | inl e ↦ rw e (rw (← (ek.beq_iff k j).0 e) at s.0, s.1)
    | inr n ↦ elim (Bool-cases (ord.lt k j)) [
      | inl l ↦ rw (n, l) ((l, All-lt_trans k j m l s.0), s)
      | inr g ↦ rw (n, g) (All-insert j k v m (lt_of_not k j n g) s.0, insert-Sorted k v m s.1)
    ]
  ]

  -- A key before every key of the map is not in it.
  pub lookup-before :
      (k : K) (m : List (K × V)) → All (λ entry. ord.lt k entry.0 ≡ true) m → lookup m k ≡ none
  unfolding lookup
  lookup-before k [] h = refl
  lookup-before k ((j, v) ∷ m) h =
      ground (arith, lookup-before k m h.1, h.0, ek.beq_iff k j, ord.lt_irrefl k)
