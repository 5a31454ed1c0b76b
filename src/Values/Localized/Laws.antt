-- ===== src/Values/Localized/Laws.antt =====
-- crates/br-core-values/src/localized/value.rs: the invariant of a localized text.
use br_rust_common.Base.{
  true, false, ◌||◌, Text, List, [], ◌∷◌, ◌++◌, some, ok, Eq, ◌==◌, any-append, find, trim, map,
  contains, distinct, if◌then◌else◌, ◌≡◌, refl, arith, eq_refl, Bool-cases, inl, inr, ap,
}
use mathlib.Core.Option
use br_rust_common.Values.Localized.{
  LocalizedEntry, Localized, trim_entry, has_locale, has_duplicate, from_parts, set_entry, set, get,
  primary_content,
}

module _ {ℓ} {L : Type ℓ} ⦃e : Eq L⦄ where
  abbrev pub locales : List (LocalizedEntry L) → List L
  locales entries = map (λ entry. entry.locale) entries

  -- No locale has two entries, and the primary one has one.
  pub record IsValid (s : Localized L) : Type 0 where
    pub once : distinct (locales s.entries) ≡ true
    pub primary : has_locale s.entries s.primary ≡ true

  has_locale-contains :
      (entries : List (LocalizedEntry L)) (locale : L)
      → has_locale entries locale ≡ contains (locales entries) locale
  has_locale-contains [] locale = refl
  has_locale-contains (entry ∷ entries) locale = ground (
    arith,
    has_locale-contains entries locale,
    e.beq_iff entry.locale locale,
    e.beq_iff locale entry.locale,
  )

  get-set_entry :
      (entries : List (LocalizedEntry L)) (locale : L) (content : Text) (j : L)
      → Option.map
          (λ entry. entry.content)
          (find (λ entry. entry.locale == j) (set_entry entries locale content))
        ≡ (if locale == j
            then some content
            else Option.map (λ entry. entry.content) (find (λ entry. entry.locale == j) entries))
  unfolding set_entry
  get-set_entry [] locale content j = ground arith
  get-set_entry (entry ∷ entries) locale content j = ground (
    arith,
    get-set_entry entries locale content j,
    e.beq_iff entry.locale locale,
    e.beq_iff entry.locale j,
    e.beq_iff locale j,
  )

  contains-set_entry :
      (entries : List (LocalizedEntry L)) (locale : L) (content : Text) (j : L)
      → contains (locales (set_entry entries locale content)) j
        ≡ (contains (locales entries) j || j == locale)
  unfolding set_entry
  contains-set_entry [] locale content j = ground arith
  contains-set_entry (entry ∷ entries) locale content j = ground (
    arith,
    contains-set_entry entries locale content j,
    e.beq_iff entry.locale locale,
    e.beq_iff j entry.locale,
    e.beq_iff j locale,
  )

  distinct-set_entry :
      (entries : List (LocalizedEntry L)) (locale : L) (content : Text)
      → distinct (locales entries) ≡ true
      → distinct (locales (set_entry entries locale content)) ≡ true
  unfolding set_entry
  distinct-set_entry [] locale content h = refl
  distinct-set_entry (entry ∷ entries) locale content h = ground (
    arith,
    distinct-set_entry entries locale content,
    contains-set_entry entries locale content entry.locale,
    e.beq_iff entry.locale locale,
  )

  has_duplicate-distinct :
      (before entries : List (LocalizedEntry L))
      → has_duplicate before entries ≡ false
      → (distinct (locales entries) ≡ true)
        × ((j : L) → has_locale before j ≡ true → contains (locales entries) j ≡ false)
  unfolding has_duplicate
  has_duplicate-distinct before [] h = (refl, λ j k. refl)
  has_duplicate-distinct before (entry ∷ entries) h =
      elim (Bool-cases (has_locale before entry.locale)) [
        | inl b ↦ ground (arith, b, h)
        | inr b ↦
            let (d, apart) =
              has_duplicate-distinct (before ++ entry ∷ []) entries (ground (arith, b, h)) in
            let joined = λ (j : L). any-append (λ entry. entry.locale == j) before (entry ∷ []) in
            (
              ground
                  (arith, d, apart entry.locale, joined entry.locale, eq_refl ⦃e = e⦄ entry.locale),
              λ j k. ground (arith, apart j, joined j, b, k, e.beq_iff j entry.locale),
            )
      ]

  locales-trim :
      (entries : List (LocalizedEntry L)) → locales (map trim_entry entries) ≡ locales entries
  locales-trim [] = refl
  locales-trim (entry ∷ entries) = ap (λ ls. entry.locale ∷ ls) (locales-trim entries)

  trimmed-IsValid :
      (primary : L) (entries : List (LocalizedEntry L))
      → has_duplicate [] entries ≡ false
      → has_locale entries primary ≡ true
      → IsValid (record { primary = primary; entries = map trim_entry entries })
  trimmed-IsValid primary entries d p = record {
    once = rw (locales-trim entries) ((has_duplicate-distinct [] entries d).0);
    primary = ground (
      arith,
      p,
      has_locale-contains entries primary,
      has_locale-contains (map trim_entry entries) primary,
      locales-trim entries,
    );
  }

  -- Entries that are accepted make a text that is valid, with their locales in their order: no locale
  -- has two entries, and the primary one has one.
  pub from_parts-IsValid :
      (primary : L) (entries : List (LocalizedEntry L)) (s : Localized L)
      → from_parts primary entries ≡ ok s
      → IsValid s × (s.primary ≡ primary) × (locales s.entries ≡ locales entries)
  unfolding from_parts
  from_parts-IsValid primary [] s h = ground (arith, h)
  from_parts-IsValid primary (first ∷ rest) s h =
      let entries = first ∷ rest in
      elim (Bool-cases (has_duplicate [] entries)) [
        | inl d ↦ ground (arith, d, h)
        | inr d ↦ elim (Bool-cases (has_locale entries primary)) [
          | inr p ↦ ground (arith, d, p, h)
          | inl p ↦
              let q : record { primary = primary; entries = map trim_entry entries } ≡ s =
                ground (arith, d, p, h) in
              rw (← q) (trimmed-IsValid primary entries d p, refl, locales-trim entries)
        ]
      ]

  find-has_locale :
      (entries : List (LocalizedEntry L)) (locale : L)
      → has_locale entries locale ≡ true
      → (content : Text) × (Option.map
            (λ entry. entry.content)
            (find (λ entry. entry.locale == locale) entries)
          ≡ some content)
  find-has_locale [] locale h = ground (arith, h)
  find-has_locale (entry ∷ entries) locale h = elim (Bool-cases (entry.locale == locale)) [
    | inl p ↦ (entry.content, rw p refl)
    | inr p ↦ rw p (find-has_locale entries locale (ground (arith, p, h)))
  ]

  -- A content that is set is the locale's, without the space around it, and no other's; the text
  -- stays valid, and its primary content is always there.
  pub set-IsValid :
      (s : Localized L) (locale : L) (content : Text) (j : L)
      → IsValid s
      → IsValid (set s locale content)
        × (get (set s locale content) j ≡ (if locale == j then some (trim content) else get s j))
        × ((c : Text) × (primary_content (set s locale content) ≡ some c))
  unfolding set get primary_content
  set-IsValid s locale content j v =
      let valid : IsValid (set s locale content) = record {
        once = distinct-set_entry s.entries locale (trim content) v.once;
        primary = ground (
          arith,
          v.primary,
          has_locale-contains s.entries s.primary,
          has_locale-contains (set_entry s.entries locale (trim content)) s.primary,
          contains-set_entry s.entries locale (trim content) s.primary,
        );
      } in
      (
        valid,
        get-set_entry s.entries locale (trim content) j,
        find-has_locale (set_entry s.entries locale (trim content)) s.primary valid.primary,
      )
