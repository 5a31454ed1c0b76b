-- ===== src/Directory/User.antt =====
-- crates/br-core-directory/src/user.rs, flatten.rs and error.rs: what a user's entry is read from. The JSON object is a map from its keys; a value that is neither a text nor
-- null is an argument `J`.
use br_rust_common.Base.{
  Bool, true, false, Text, bytes, List, [], ◌∷◌, Option, none, some, Result, ok, err, ◌>>=◌, ◌>>◌,
  ◌==◌, text_Eq, lookup, if◌then◌else◌, ◌≡◌, refl, arith, Option-cases, inl, inr, All, contains,
}

pub data Value {ℓ} (J : Type ℓ) : Type ℓ where
  string : Text → Value J
  null : Value J
  other : J → Value J

-- The errors of `flatten.rs`, which the source words as texts, and of `error.rs`.
pub data DirectoryError {ℓ} (J : Type ℓ) : Type ℓ where
  not_string : Text → Value J → DirectoryError J
  not_uuids : Text → Value J → DirectoryError J
  missing : Text → DirectoryError J
  reserved_extension_key : (entity key : Text) → DirectoryError J

module _ {ℓ} {J : Type ℓ} where
  -- `BTreeMap::remove`, of the map that is left.
  unfoldable pub remove : List (Text × Value J) → Text → List (Text × Value J)
  remove [] key = []
  remove ((k, v) ∷ bag) key = let rest = remove bag key in if key == k then rest else (k, v) ∷ rest

  unfoldable pub take_required_string :
      List (Text × Value J) → Text → Result (Text × List (Text × Value J)) (DirectoryError J)
  take_required_string bag key = elim (lookup bag key) [
    | some (string s) ↦ ok (s, remove bag key)
    | some null ↦ err (not_string key null)
    | some (other v) ↦ err (not_string key (other v))
    | none ↦ err (missing key)
  ]

  unfoldable pub take_optional_string :
      List (Text × Value J) → Text → Result (Option Text × List (Text × Value J)) (DirectoryError J)
  take_optional_string bag key = elim (lookup bag key) [
    | some (string s) ↦ ok (some s, remove bag key)
    | some null ↦ ok (none, remove bag key)
    | some (other v) ↦ err (not_string key (other v))
    | none ↦ ok (none, remove bag key)
  ]

  abbrev contains_key : List (Text × Value J) → Text → Bool
  contains_key m key = elim (lookup m key) [ some _ ↦ true | none ↦ false ]

  unfoldable pub reject_reserved_keys :
      Text → List Text → List (Text × Value J) → Result (Unit {0}) (DirectoryError J)
  reject_reserved_keys entity [] extensions = ok tt
  reject_reserved_keys entity (key ∷ reserved) extensions =
      let rest = reject_reserved_keys entity reserved extensions in
      if contains_key extensions key then err (reserved_extension_key entity key) else rest

abbrev pub published_user_reserved_keys : List Text
published_user_reserved_keys = bytes "email" ∷ bytes "first_name" ∷ bytes "last_name" ∷ []

pub record PublishedUser {ℓ} (J : Type ℓ) : Type ℓ where
  pub email : Text
  pub first_name : Option Text
  pub last_name : Option Text
  pub extensions : List (Text × Value J)

module _ {ℓ} {J : Type ℓ} where
  unfoldable pub new_user :
      Text
      → Option Text
      → Option Text
      → List (Text × Value J)
      → Result (PublishedUser J) (DirectoryError J)
  new_user email first_name last_name extensions =
      reject_reserved_keys (bytes "PublishedUser") published_user_reserved_keys extensions
      >> ok (record {
        email = email;
        first_name = first_name;
        last_name = last_name;
        extensions = extensions;
      })

  unfoldable pub extension : PublishedUser J → Text → Option (Value J)
  extension user key = lookup user.extensions key

  unfoldable pub deserialize_user :
      List (Text × Value J) → Result (PublishedUser J) (DirectoryError J)
  deserialize_user bag = take_required_string bag (bytes "email") >>= λ email.
      take_optional_string email.1 (bytes "first_name") >>= λ first.
      take_optional_string first.1 (bytes "last_name") >>= λ last.
      new_user email.0 first.0 last.0 last.1

  pub lookup-remove :
      (bag : List (Text × Value J)) (key j : Text)
      → lookup (remove bag key) j ≡ (if j == key then none else lookup bag j)
  unfolding lookup remove
  lookup-remove [] key j = ground arith
  lookup-remove ((k, v) ∷ bag) key j = ground (
    arith,
    lookup-remove bag key j,
    text_Eq.beq_iff j key,
    text_Eq.beq_iff key k,
    text_Eq.beq_iff j k,
  )

  -- A field that may be missing, null or a text.
  abbrev pub as_text : Option (Value J) → Option (Option Text)
  as_text none = some none
  as_text (some null) = some none
  as_text (some (string s)) = some (some s)
  as_text (some (other v)) = none

  take_optional_string-ok :
      (bag : List (Text × Value J)) (key : Text) (f : Option Text)
      → as_text (lookup bag key) ≡ some f
      → take_optional_string bag key ≡ ok (f, remove bag key)
  unfolding take_optional_string
  take_optional_string-ok bag key f h = elim (Option-cases (lookup bag key)) [
    | inl e ↦ ground (arith, e, h)
    | inr (null, e) ↦ ground (arith, e, h)
    | inr (string s, e) ↦ ground (arith, e, h)
    | inr (other v, e) ↦ ground (arith, e, h)
  ]

  pub take_required_string-ok :
      (bag : List (Text × Value J)) (key s : Text)
      → lookup bag key ≡ some (string s)
      → take_required_string bag key ≡ ok (s, remove bag key)
  unfolding take_required_string
  take_required_string-ok bag key s h = rw (h, take_required_string) refl

  -- The bag without the three fields.
  abbrev rest_of : List (Text × Value J) → List (Text × Value J)
  rest_of bag =
      remove (remove (remove bag (bytes "email")) (bytes "first_name")) (bytes "last_name")

  lookup-rest_of :
      (bag : List (Text × Value J)) (j : Text)
      → lookup (rest_of bag) j
        ≡ (if contains published_user_reserved_keys j then none else lookup bag j)
  lookup-rest_of bag j = ground (
    arith,
    lookup-remove (remove (remove bag (bytes "email")) (bytes "first_name")) (bytes "last_name") j,
    lookup-remove (remove bag (bytes "email")) (bytes "first_name") j,
    lookup-remove bag (bytes "email") j,
  )

  pub reject_reserved_keys-ok :
      (entity : Text) (reserved : List Text) (bag : List (Text × Value J))
      → All (λ key. lookup bag key ≡ none) reserved
      → reject_reserved_keys entity reserved bag ≡ ok tt
  unfolding reject_reserved_keys
  reject_reserved_keys-ok entity [] bag h = refl
  reject_reserved_keys-ok entity (key ∷ reserved) bag h =
      ground (arith, h.0, reject_reserved_keys-ok entity reserved bag h.1)

  new_user-rest_of :
      (email : Text) (first last : Option Text) (bag : List (Text × Value J))
      → new_user email first last (rest_of bag)
        ≡ ok (record {
          email = email;
          first_name = first;
          last_name = last;
          extensions = rest_of bag;
        })
  unfolding new_user
  new_user-rest_of email first last bag =
      rw
        (
          new_user,
          reject_reserved_keys-ok (bytes "PublishedUser") published_user_reserved_keys (rest_of bag)
              (
                lookup-rest_of bag (bytes "email"),
                (
                  lookup-rest_of bag (bytes "first_name"),
                  (lookup-rest_of bag (bytes "last_name"), tt),
                ),
              ),
        )
        refl

  -- An object whose email is a text, and whose names are texts, null or missing, is read as a user
  -- with these fields; every other key of the object is an extension with its value, and no
  -- reserved key is one.
  pub deserialize_user_total :
      (bag : List (Text × Value J)) (email : Text) (first last : Option Text) (j : Text)
      → lookup bag (bytes "email") ≡ some (string email)
      → as_text (lookup bag (bytes "first_name")) ≡ some first
      → as_text (lookup bag (bytes "last_name")) ≡ some last
      → (user : PublishedUser J) × (deserialize_user bag ≡ ok user)
        × (user.email ≡ email)
        × (user.first_name ≡ first)
        × (user.last_name ≡ last)
        × (extension user j
            ≡ (if contains published_user_reserved_keys j then none else lookup bag j))
  unfolding deserialize_user extension
  deserialize_user_total bag email first last j e f l =
      let one = remove bag (bytes "email") in
      let two = remove one (bytes "first_name") in
      let f' : as_text (lookup one (bytes "first_name")) ≡ some first =
        rw (lookup-remove bag (bytes "email") (bytes "first_name")) f in
      let l' : as_text (lookup two (bytes "last_name")) ≡ some last =
        rw
          (
            lookup-remove one (bytes "first_name") (bytes "last_name"),
            lookup-remove bag (bytes "email") (bytes "last_name"),
          )
          l in
      (
        record { email = email; first_name = first; last_name = last; extensions = rest_of bag },
        rw
            (
              take_required_string-ok bag (bytes "email") email e,
              take_optional_string-ok one (bytes "first_name") first f',
              take_optional_string-ok two (bytes "last_name") last l',
            )
            (new_user-rest_of email first last bag),
        refl,
        refl,
        refl,
        lookup-rest_of bag j,
      )
