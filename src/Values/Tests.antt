-- ===== src/Values/Tests.antt =====
-- Runs of localized texts on small inputs.
use br_rust_common.Base.{
  ℕ, Bool, true, Text, bytes, List, [], ◌∷◌, Option, none, some, ◌==◌, nat_Eq, trim, if◌then◌else◌,
  ◌≡◌, refl,
}
use br_rust_common.Values.Localized.{Localized, set, get, primary_content}
use br_rust_common.Values.Localized.Laws.{IsValid, set-IsValid}

-- Locales are numbers here.
abbrev greeting : Localized ℕ
greeting = record {
  primary = 1;
  entries =
      record { locale = 1; content = bytes "hello" }
      ∷ record { locale = 2; content = bytes "bonjour" }
      ∷ [];
}

trimmed : trim (bytes "  hi there ") ≡ bytes "hi there"
unfolding trim br_rust_common.Base.strip_prefix
trimmed = refl

set-IsValid_example :
    IsValid (set greeting 2 (bytes " salut "))
    × (get (set greeting 2 (bytes " salut ")) 2 ≡ some (trim (bytes " salut ")))
    × ((c : Text) × (primary_content (set greeting 2 (bytes " salut ")) ≡ some c))
set-IsValid_example =
    set-IsValid greeting 2 (bytes " salut ") 2 (record { once = refl; primary = refl })
