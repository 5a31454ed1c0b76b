-- ===== src/Base/Strip.antt =====
-- `str::strip_prefix` and `str::trim` on UTF-8 bytes: the characters of Unicode's `White_Space`,
-- each as its bytes.
use br_rust_common.Base.Tests.{nat_eq, nat_eq_iff, if◌then◌else◌}
use br_rust_common.Base.Bytes.{Text}
use br_rust_common.Base.Lists.{length}
use mathlib.Core.Path.{◌≡◌, refl}
use mathlib.Core.Logic.{◌↔◌}
use mathlib.Core.Option.{Option, none, some}
use mathlib.Core.List.{List, [], ◌∷◌, ◌++◌, map}
use Prim.Native.Nat.{ℕ, zero, suc}
use native.Mathlib.Omega.{arith}

unfoldable pub strip_prefix : Text → Text → Option Text
strip_prefix s [] = some s
strip_prefix [] (c ∷ prefix) = none
strip_prefix (d ∷ s) (c ∷ prefix) = if nat_eq d c then strip_prefix s prefix else none

abbrev white_space : List Text
white_space =
    (9 ∷ [])
    ∷ (10 ∷ [])
    ∷ (11 ∷ [])
    ∷ (12 ∷ [])
    ∷ (13 ∷ [])
    ∷ (32 ∷ [])
    ∷ (194 ∷ 133 ∷ [])
    ∷ (194 ∷ 160 ∷ [])
    ∷ (225 ∷ 154 ∷ 128 ∷ [])
    ∷ (226 ∷ 128 ∷ 128 ∷ [])
    ∷ (226 ∷ 128 ∷ 129 ∷ [])
    ∷ (226 ∷ 128 ∷ 130 ∷ [])
    ∷ (226 ∷ 128 ∷ 131 ∷ [])
    ∷ (226 ∷ 128 ∷ 132 ∷ [])
    ∷ (226 ∷ 128 ∷ 133 ∷ [])
    ∷ (226 ∷ 128 ∷ 134 ∷ [])
    ∷ (226 ∷ 128 ∷ 135 ∷ [])
    ∷ (226 ∷ 128 ∷ 136 ∷ [])
    ∷ (226 ∷ 128 ∷ 137 ∷ [])
    ∷ (226 ∷ 128 ∷ 138 ∷ [])
    ∷ (226 ∷ 128 ∷ 168 ∷ [])
    ∷ (226 ∷ 128 ∷ 169 ∷ [])
    ∷ (226 ∷ 128 ∷ 175 ∷ [])
    ∷ (226 ∷ 129 ∷ 159 ∷ [])
    ∷ (227 ∷ 128 ∷ 128 ∷ [])
    ∷ []

abbrev strip_one : List Text → Text → Option Text
strip_one [] s = none
strip_one (c ∷ cs) s = elim (strip_prefix s c) [ some rest ↦ some rest | none ↦ strip_one cs s ]

-- Each turn drops one character, so the length of the text is enough turns.
abbrev strip_all : ℕ → List Text → Text → Text
strip_all zero cs s = s
strip_all (suc n) cs s = elim (strip_one cs s) [ some rest ↦ strip_all n cs rest | none ↦ s ]

abbrev pub reverse {ℓ} : {A : Type ℓ} → List A → List A
reverse [] = []
reverse (x ∷ xs) = reverse xs ++ x ∷ []

unfoldable pub trim : Text → Text
unfolding strip_prefix
trim s =
    let start = strip_all (length s) white_space s in
    reverse (strip_all (length start) (map reverse white_space) (reverse start))

strip_prefix_sound : (s prefix rest : Text) → strip_prefix s prefix ≡ some rest → s ≡ prefix ++ rest
unfolding strip_prefix
strip_prefix_sound s [] rest h = ground arith
strip_prefix_sound [] (c ∷ prefix) rest h = ground arith
strip_prefix_sound (d ∷ s) (c ∷ prefix) rest h =
    ground (arith, strip_prefix_sound s prefix rest, nat_eq_iff d c)

pub strip_prefix-append : (prefix rest : Text) → strip_prefix (prefix ++ rest) prefix ≡ some rest
unfolding strip_prefix
strip_prefix-append [] rest = refl
strip_prefix-append (c ∷ prefix) rest =
    ground (arith, strip_prefix-append prefix rest, nat_eq_iff c c)

pub strip_prefix-eq-some_iff :
    (s prefix rest : Text) → (strip_prefix s prefix ≡ some rest) ↔ (s ≡ prefix ++ rest)
strip_prefix-eq-some_iff s prefix rest =
    (strip_prefix_sound s prefix rest, λ e. rw e (strip_prefix-append prefix rest))
