-- ===== src/Values/Localized.antt =====
-- crates/br-core-values/src/localized/value.rs and entry.rs: a text with a content for each of its
-- locales.
pub mod Laws
use br_rust_common.Base.{
  ℕ, Bool, true, false, not, Text, List, [], ◌∷◌, ◌++◌, Option, none, some, Result, ok, err, Eq,
  ◌==◌, any, find, trim, is_empty, map, if◌then◌else◌,
}
use mathlib.Core.Option

pub data ValueError : Type 0 where
  malformed_code : (value : Text) (expected_len : ℕ) → ValueError
  unknown_currency unknown_country locale_unknown : (value : Text) → ValueError
  localized_empty localized_duplicate_locale localized_primary_missing : ValueError

pub record LocalizedEntry {ℓ} (L : Type ℓ) : Type ℓ where
  pub locale : L
  pub content : Text

pub record Localized {ℓ} (L : Type ℓ) : Type ℓ where
  pub primary : L
  pub entries : List (LocalizedEntry L)

abbrev pub trim_entry {ℓ} : {L : Type ℓ} → LocalizedEntry L → LocalizedEntry L
trim_entry entry = record entry { content = trim entry.content }

unfoldable pub new {ℓ} : {L : Type ℓ} → L → Text → Localized L
new primary content = record {
  primary = primary;
  entries = record { locale = primary; content = trim content } ∷ [];
}

module _ {ℓ} {L : Type ℓ} ⦃e : Eq L⦄ where
  abbrev pub has_locale : List (LocalizedEntry L) → L → Bool
  has_locale entries locale = any (λ entry. entry.locale == locale) entries

  -- The loop over the entries, with those before each.
  unfoldable pub has_duplicate : List (LocalizedEntry L) → List (LocalizedEntry L) → Bool
  has_duplicate before [] = false
  has_duplicate before (entry ∷ entries) =
      let rest = has_duplicate (before ++ entry ∷ []) entries in
      if has_locale before entry.locale then true else rest

  unfoldable pub from_parts : L → List (LocalizedEntry L) → Result (Localized L) ValueError
  from_parts primary entries =
      if is_empty entries
      then err localized_empty
      else if has_duplicate [] entries
      then err localized_duplicate_locale
      else if not (has_locale entries primary)
      then err localized_primary_missing
      else ok (record { primary = primary; entries = map trim_entry entries })

  -- The first entry of the locale is changed, or a new one pushed.
  unfoldable pub set_entry : List (LocalizedEntry L) → L → Text → List (LocalizedEntry L)
  set_entry [] locale content = record { locale = locale; content = content } ∷ []
  set_entry (entry ∷ entries) locale content =
      let rest = set_entry entries locale content in
      if entry.locale == locale then record entry { content = content } ∷ entries else entry ∷ rest

  unfoldable pub set : Localized L → L → Text → Localized L
  set s locale content = record s { entries = set_entry s.entries locale (trim content) }

  unfoldable pub get : Localized L → L → Option Text
  get s locale =
      Option.map (λ entry. entry.content) (find (λ entry. entry.locale == locale) s.entries)

  -- `expect` makes a missing entry a panic: `none`.
  unfoldable pub primary_content : Localized L → Option Text
  primary_content s = get s s.primary
