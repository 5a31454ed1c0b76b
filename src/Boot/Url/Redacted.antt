-- ===== src/Boot/Url/Redacted.antt =====
-- crates/br-util-boot/src/database_url.rs and nats_url.rs: what a redacted URL shows.
use br_rust_common.Base.{
  Bool, true, false, not, ◌||◌, Text, bytes, List, [], ◌∷◌, ◌++◌, Option, none, some, ◌==◌, text_Eq,
  is_empty, any, all, map, ◌≡◌, refl, arith, Bool-cases, Option-cases, inl, inr, ◌⊎◌, ◌∙◌,
}
use br_rust_common.Boot.Url.{
  UrlParser, DatabaseUrl, NatsUrl, Setters, redacted_mark, hide_password, is_some, redact_query,
  redacted_database_url, redacted_nats_url,
}

-- The parameter shows no password.
abbrev pub shows_none : Text × Text → Bool
shows_none (key, value) = not (key == bytes "password") || value == redacted_mark

all-hide_password : (pairs : List (Text × Text)) → all shows_none (map hide_password pairs) ≡ true
unfolding hide_password
all-hide_password [] = refl
all-hide_password ((key, value) ∷ pairs) = elim (Bool-cases (key == bytes "password")) [
  | inl e ↦ rw e (all-hide_password pairs)
  | inr e ↦ rw e (all-hide_password pairs)
]

all-shows_none :
    (pairs : List (Text × Text))
    → any (λ pair. pair.0 == bytes "password") pairs ≡ false
    → all shows_none pairs ≡ true
all-shows_none [] h = refl
all-shows_none ((key, value) ∷ pairs) h = ground (arith, all-shows_none pairs)

empty-text : (s : Text) → is_empty s ≡ true → s ≡ []
empty-text [] h = refl
empty-text (c ∷ s) h = ground (arith, h)

absent {ℓ} : {A : Type ℓ} (o : Option A) → is_some o ≡ false → o ≡ none
absent none h = refl
absent (some a) h = ground (arith, h)

module _ {ℓ} {U : Type ℓ} (url : UrlParser U) (law : Setters url) where
  -- The URL has no password, or a hidden one, in its authority, and none among its parameters.
  pub record Hides (v : U) : Type ℓ where
    pub authority : (url.password v ≡ none) ⊎ (url.password v ≡ some redacted_mark)
    pub query : all shows_none (url.query_pairs v) ≡ true

  redact_query-Hides :
      (u : U)
      → (url.password u ≡ none) ⊎ (url.password u ≡ some redacted_mark)
      → Hides (redact_query url u)
  unfolding redact_query
  redact_query-Hides u h =
      elim (Bool-cases (any (λ pair. pair.0 == bytes "password") (url.query_pairs u))) [
        | inl e ↦ rw e (record {
          authority = rw (law.query_password u) h;
          query = rw (law.query_set u) (all-hide_password (url.query_pairs u));
        })
        | inr e ↦ rw e (record { authority = h; query = all-shows_none (url.query_pairs u) e })
      ]

  -- A redacted `DATABASE_URL` is the scheme with `://***`, or the text of a URL that has no password
  -- but `***`, neither in its authority nor as a parameter; the setters of a URL set `***` and none
  -- as they are.
  pub redacted_database_url-Hides :
      (d : DatabaseUrl U)
      → (redacted_database_url url d ≡ url.scheme d.parsed ++ (bytes "://" ++ redacted_mark))
        ⊎ ((v : U) × (redacted_database_url url d ≡ url.serialize v) × Hides v)
  unfolding redacted_database_url
  redacted_database_url-Hides d = elim (Option-cases (url.password d.parsed)) [
    | inl n ↦
        inr (redact_query url d.parsed, ground (arith, n), redact_query-Hides d.parsed (inl n))
    | inr (p, n) ↦ elim (Option-cases (url.set_password d.parsed (some redacted_mark))) [
      | inl e ↦ inl (ground (arith, n, e))
      | inr (hidden, e) ↦ inr (
        redact_query url hidden,
        ground (arith, n, e),
        redact_query-Hides hidden (inr (law.password_hidden d.parsed hidden e)),
      )
    ]
  ]

  -- The URL has no password, and no user name but a hidden one.
  pub record Anonymous (v : U) : Type ℓ where
    pub user : (url.username v ≡ []) ⊎ (url.username v ≡ redacted_mark)
    pub password : url.password v ≡ none

  -- A redacted `NATS_URL` is the scheme with `://***`, or the text of a URL that has no password,
  -- and no user name but `***`; the setters of a URL set `***` and none as they are.
  pub redacted_nats_url-Anonymous :
      (n : NatsUrl U)
      → (redacted_nats_url url n ≡ url.scheme n.parsed ++ (bytes "://" ++ redacted_mark))
        ⊎ ((v : U) × (redacted_nats_url url n ≡ url.serialize v) × Anonymous v)
  unfolding redacted_nats_url
  redacted_nats_url-Anonymous n =
      let named = not (is_empty (url.username n.parsed)) in
      elim (Bool-cases (named || is_some (url.password n.parsed))) [
        | inr b ↦ inr (
          n.parsed,
          ground (arith, b),
          record {
            user = inl (empty-text (url.username n.parsed) (ground (arith, b)));
            password = absent (url.password n.parsed) (ground (arith, b));
          },
        )
        | inl b ↦ elim (Option-cases (url.set_password n.parsed none)) [
          | inl e ↦ inl (ground (arith, b, e))
          | inr (bare, e) ↦ elim (Option-cases (url.set_username bare redacted_mark)) [
            | inl f ↦ inl (ground (arith, b, e, f))
            | inr (hidden, f) ↦ inr (
              hidden,
              ground (arith, b, e, f),
              record {
                user = inr (law.username_hidden bare hidden f);
                password =
                    law.username_password bare hidden f ∙ law.password_cleared n.parsed bare e;
              },
            )
          ]
        ]
      ]
