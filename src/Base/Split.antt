-- ===== src/Base/Split.antt =====
-- Splitting a byte string at a separator, and joining the parts again.
use br_rust_common.Base.Tests.{nat_eq, nat_eq_iff, Bool-cases}
use br_rust_common.Base.Bytes.{Text, split, join, has_byte}
use br_rust_common.Base.Lists.{All}
use mathlib.Core.Path.{◌≡◌, refl, ap, ◌∙◌}
use mathlib.Core.Logic.{inl, inr}
use mathlib.Core.Bool.{false}
use mathlib.Core.List.{List, [], ◌∷◌, ◌++◌}
use Prim.Native.Nat.{ℕ}
use native.Mathlib.Omega.{arith}

-- `split` never gives the empty list.
split-cons : (sep : ℕ) (s : Text) → (w : Text) × (ws : List Text) × (split sep s ≡ w ∷ ws)
unfolding split
split-cons sep [] = ([], [], refl)
split-cons sep (c ∷ s) = elim (Bool-cases (nat_eq c sep)) [
  | inl e ↦ ([], split sep s, rw e)
  | inr e ↦ let (w, ws, p) = split-cons sep s in (c ∷ w, ws, rw (e, p))
]

join-extend :
    (sep c : ℕ) (w : Text) (ws : List Text) → join sep ((c ∷ w) ∷ ws) ≡ c ∷ join sep (w ∷ ws)
unfolding join
join-extend sep c w [] = refl
join-extend sep c w (v ∷ ws) = refl

-- The parts, joined, are the text.
pub join-split : (sep : ℕ) (s : Text) → join sep (split sep s) ≡ s
unfolding split join
join-split sep [] = refl
join-split sep (c ∷ s) = elim (Bool-cases (nat_eq c sep)) [
  | inl e ↦
      let (w, ws, p) = split-cons sep s in
      rw (e, p)
        (ground (
          arith,
          nat_eq_iff c sep,
          (let q : join sep (w ∷ ws) ≡ s = rw p at (join-split sep s) in q),
        ))
  | inr e ↦
      let (w, ws, p) = split-cons sep s in
      rw (e, p) (join-extend sep c w ws ∙ ap (λ r. c ∷ r) (rw p at (join-split sep s)))
]

-- No part holds the separator.
pub split-All : (sep : ℕ) (s : Text) → All (λ w. has_byte sep w ≡ false) (split sep s)
unfolding split
split-All sep [] = (refl, tt)
split-All sep (c ∷ s) = elim (Bool-cases (nat_eq c sep)) [
  | inl e ↦ rw e (refl, split-All sep s)
  | inr e ↦
      let (w, ws, p) = split-cons sep s in
      let h : All (λ w. has_byte sep w ≡ false) (w ∷ ws) = rw p at (split-All sep s) in
      rw (e, p) (ground arith, h.1)
]

-- A text without the separator is its only part.
pub split-of_has_byte : (sep : ℕ) (w : Text) → has_byte sep w ≡ false → split sep w ≡ w ∷ []
unfolding split
split-of_has_byte sep [] h = refl
split-of_has_byte sep (c ∷ w) h = ground (arith, split-of_has_byte sep w)

pub split-append :
    (sep : ℕ) (w s : Text) → has_byte sep w ≡ false → split sep (w ++ sep ∷ s) ≡ w ∷ split sep s
unfolding split
split-append sep [] s h = ground (arith, nat_eq_iff sep sep)
split-append sep (c ∷ w) s h = ground (arith, split-append sep w s)

-- Splitting what was joined gives the parts back.
pub split-join :
    (sep : ℕ) (w : Text) (ws : List Text)
    → All (λ v. has_byte sep v ≡ false) (w ∷ ws)
    → split sep (join sep (w ∷ ws)) ≡ w ∷ ws
unfolding join
split-join sep w [] h = split-of_has_byte sep w h.0
split-join sep w (v ∷ ws) h =
    split-append sep w (join sep (v ∷ ws)) h.0 ∙ ap (λ r. w ∷ r) (split-join sep v ws h.1)
