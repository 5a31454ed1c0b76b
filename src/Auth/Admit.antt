-- ===== src/Auth/Admit.antt =====
-- crates/br-core-auth/src/header.rs and error.rs, crates/br-util-axum-auth/src/lib.rs and refusal.rs:
-- a request is let in with its passport. Base64, serde and the handler are arguments.
use br_rust_common.Base.{
  ℕ, false, Text, bytes, [], ◌∷◌, ◌++◌, Option, none, some, Result, ok, err, ◌>>=◌, map_err,
  is_empty, if◌then◌else◌, ◌≡◌, refl, arith, Result-cases, Option-cases, inl, inr, ◌⊎◌, ◌≢◌,
}
use br_rust_common.Auth.Passport.{Passport}

pub data PassportError : Type 0 where
  malformed : Text → PassportError

-- `serde_json` on a passport and base64 on bytes, with the texts of their errors.
pub record HeaderCodec {ℓ} (J : Type ℓ) : Type ℓ where
  pub to_json : Passport J → Text
  pub from_json : Text → Result (Passport J) Text
  pub encode : Text → Text
  pub decode : Text → Result Text Text

pub record Response : Type 0 where
  pub status : ℕ
  pub content_type : Option Text
  pub body : Text

unfoldable pub text_unauthorized : Response
text_unauthorized = record { status = 401; content_type = none; body = bytes "unauthorized" }

unfoldable pub graphql_unauthorized : Response
graphql_unauthorized = record {
  status = 401;
  content_type = some (bytes "application/json");
  body =
      bytes
        "{\"errors\":[{\"message\":\"unauthorized\",\"extensions\":{\"code\":\"UNAUTHENTICATED\"}}]}";
}

module _ {ℓ} {J : Type ℓ} (codec : HeaderCodec J) where
  unfoldable pub to_header : Passport J → Text
  to_header p = codec.encode (codec.to_json p)

  unfoldable pub from_header : Text → Result (Passport J) PassportError
  from_header header =
      map_err (λ e. malformed (bytes "invalid base64 in X-Passport: " ++ e)) (codec.decode header)
      >>= λ json.
          map_err (λ e. malformed (bytes "invalid JSON in X-Passport: " ++ e))
            (codec.from_json json)

  -- The header `X-Passport` of the request: absent, not a text, or a text.
  unfoldable pub decode_passport : Option (Option Text) → Option (Passport J)
  decode_passport none = none
  decode_passport (some none) = none
  decode_passport (some (some header)) =
      let decoded : Option (Passport J) = elim (from_header header) [
        | ok p ↦ some p
        | err _ ↦ none
      ] in
      if is_empty header then none else decoded

  -- `admit`, over what the rest of the service does with the passport: an answer, or a step of its
  -- state that gives one.
  unfoldable pub admit {κ} : {R : Type κ} → (Passport J → R) → R → Option (Option Text) → R
  admit next refuse header = elim (decode_passport header) [ some p ↦ next p | none ↦ refuse ]

  -- What base64 and serde promise: what is written can be read, and is not empty.
  pub record IsCodec : Type ℓ where
    pub from_to : (p : Passport J) → codec.from_json (codec.to_json p) ≡ ok p
    pub decode_encode : (s : Text) → codec.decode (codec.encode s) ≡ ok s
    pub encode_nonempty : (p : Passport J) → is_empty (codec.encode (codec.to_json p)) ≡ false

  -- A passport that a service puts in the header is the one that the next service's handler sees,
  -- and the request is not refused; the codecs read what they wrote.
  pub admit-to_header :
      (next : Passport J → Response) (refuse : Response) (p : Passport J)
      → IsCodec
      → (from_header (to_header p) ≡ ok p)
        × (admit next refuse (some (some (to_header p))) ≡ next p)
  unfolding from_header to_header admit decode_passport
  admit-to_header next refuse p law = (
    ground (arith, law.from_to p, law.decode_encode (codec.to_json p)),
    ground (arith, law.from_to p, law.decode_encode (codec.to_json p), law.encode_nonempty p),
  )

  -- The header carries the passport: it is a text that is not empty, base64 reads the bytes in it,
  -- and serde reads the passport in those.
  pub record IsCarried (header : Option (Option Text)) (p : Passport J) : Type ℓ where
    pub text : Text
    pub json : Text
    pub given : header ≡ some (some text)
    pub nonempty : text ≢ []
    pub base64 : codec.decode text ≡ ok json
    pub serde : codec.from_json json ≡ ok p

  from_header-eq-ok :
      (s : Text) (p : Passport J)
      → from_header s ≡ ok p
      → (json : Text) × (codec.decode s ≡ ok json) × (codec.from_json json ≡ ok p)
  unfolding from_header
  from_header-eq-ok s p h = elim (Result-cases (codec.decode s)) [
    | inr (e, d) ↦ ground (arith, d, h)
    | inl (json, d) ↦ elim (Result-cases (codec.from_json json)) [
      | inr (e, j) ↦ ground (arith, d, j, h)
      | inl (q, j) ↦ (json, d, ground (arith, d, j, h))
    ]
  ]

  decode_passport-IsCarried :
      (header : Option (Option Text)) (p : Passport J)
      → decode_passport header ≡ some p
      → IsCarried header p
  unfolding decode_passport
  decode_passport-IsCarried none p h = ground (arith, h)
  decode_passport-IsCarried (some none) p h = ground (arith, h)
  decode_passport-IsCarried (some (some [])) p h = ground (arith, h)
  decode_passport-IsCarried (some (some (c ∷ s))) p h = elim (Result-cases (from_header (c ∷ s))) [
    | inr (e, d) ↦ ground (arith, d, h)
    | inl (q, d) ↦
        let (json, b, j) = from_header-eq-ok (c ∷ s) p (ground (arith, d, h)) in
        record {
          text = c ∷ s;
          json = json;
          given = refl;
          nonempty = λ e. ground (arith, e);
          base64 = b;
          serde = j;
        }
  ]

  nonempty-is_empty : (s : Text) → s ≢ [] → is_empty s ≡ false
  nonempty-is_empty [] n = elim (n refl) [ ]
  nonempty-is_empty (c ∷ s) n = refl

  IsCarried-decode_passport :
      (header : Option (Option Text)) (p : Passport J)
      → IsCarried header p
      → decode_passport header ≡ some p
  unfolding decode_passport from_header
  IsCarried-decode_passport header p c =
      rw (c.given, decode_passport, nonempty-is_empty c.text c.nonempty, c.base64, c.serde) refl

  -- The handler runs exactly when the header carries a passport, and then with that passport;
  -- otherwise the answer is the refusal, and the handler does not run: whatever it does, of any
  -- type, a step of a state among them, has no part in the result.
  pub admit-cases {κ} :
      {R : Type κ} (next : Passport J → R) (refuse : R) (header : Option (Option Text))
      → ((p : Passport J) × IsCarried header p × (admit next refuse header ≡ next p))
        ⊎ (((p : Passport J) → ¬ (IsCarried header p)) × (admit next refuse header ≡ refuse))
  unfolding admit
  admit-cases next refuse header = elim (Option-cases (decode_passport header)) [
    | inl n ↦
        inr ((λ p c. ground (arith, n, IsCarried-decode_passport header p c)), rw (n, admit) refl)
    | inr (p, e) ↦ inl (p, decode_passport-IsCarried header p e, rw (e, admit) refl)
  ]
