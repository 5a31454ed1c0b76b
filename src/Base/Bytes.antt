-- ===== src/Base/Bytes.antt =====
-- Rust's `str` as the list of its UTF-8 bytes. `len` counts bytes, and every character that the
-- program looks for is ASCII, so a test on characters is a test on bytes.
use Prim.Native.Char.{code}
use Prim.Native.String.{String}
use Prim.Native.Nat.{ℕ}
use mathlib.Core.Bool.{Bool, true, false, ◌&&◌, ◌||◌}
use mathlib.Core.List.{List, [], ◌∷◌, ◌++◌}
use br_rust_common.Base.Tests.{Eq, nat_Eq, leb, nat_eq, if◌then◌else◌}
use br_rust_common.Base.Lists.{any, list_eq, list_eq_iff}

abbrev pub Text : Type 0
Text = List ℕ

instance abbrev pub text_Eq : Eq Text
text_Eq = record { beq = list_eq nat_eq; beq_iff = list_eq_iff }

-- The bytes of an ASCII literal.
abbrev pub bytes : String → Text
bytes String.[] = []
bytes (String.◌∷◌ c s) = code c ∷ bytes s

abbrev pub is_empty {ℓ} : {A : Type ℓ} → List A → Bool
is_empty [] = true
is_empty (x ∷ xs) = false

-- `u8::is_ascii_lowercase` and its siblings.
abbrev pub is_ascii_lowercase : ℕ → Bool
is_ascii_lowercase b = leb b'a' b && leb b b'z'

abbrev pub is_ascii_uppercase : ℕ → Bool
is_ascii_uppercase b = leb b'A' b && leb b b'Z'

abbrev pub is_ascii_digit : ℕ → Bool
is_ascii_digit b = leb b'0' b && leb b b'9'

abbrev pub is_ascii_alphanumeric : ℕ → Bool
is_ascii_alphanumeric b = is_ascii_lowercase b || is_ascii_uppercase b || is_ascii_digit b

abbrev extend_first : ℕ → List Text → List Text
extend_first c [] = (c ∷ []) ∷ []
extend_first c (w ∷ ws) = (c ∷ w) ∷ ws

-- `str::split` at one ASCII character: n separators give n + 1 parts.
unfoldable pub split : ℕ → Text → List Text
split sep [] = [] ∷ []
split sep (c ∷ s) =
    let rest = split sep s in if nat_eq c sep then [] ∷ rest else extend_first c rest

-- The parts, with the separator put back between them.
unfoldable pub join : ℕ → List Text → Text
join sep [] = []
join sep (w ∷ []) = w
join sep (w ∷ v ∷ ws) = w ++ sep ∷ join sep (v ∷ ws)

abbrev pub has_byte : ℕ → Text → Bool
has_byte sep s = any (λ c. nat_eq c sep) s
