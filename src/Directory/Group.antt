-- ===== src/Directory/Group.antt =====
-- crates/br-core-directory/src/group.rs and service_account.rs: what the entries of a group and of a
-- service account are read from. Serde's reading of a list of ids is an argument.
use br_rust_common.Base.{
  ℕ, Bool, Text, bytes, List, [], ◌∷◌, Option, none, some, Result, ok, err, ◌>>=◌, ◌>>◌, text_Eq,
  nat_Eq, lookup, if◌then◌else◌, contains, ◌≡◌, refl, arith,
}
use br_rust_common.Directory.User.{
  Value, string, DirectoryError, missing, not_uuids, remove, take_required_string,
  reject_reserved_keys, reject_reserved_keys-ok, lookup-remove, take_required_string-ok,
}

abbrev pub published_group_reserved_keys : List Text
published_group_reserved_keys = bytes "name" ∷ bytes "member_ids" ∷ []

abbrev pub published_service_account_reserved_keys : List Text
published_service_account_reserved_keys = bytes "name" ∷ []

pub record PublishedGroup {ℓ} (J : Type ℓ) : Type ℓ where
  pub name : Text
  pub member_ids : List ℕ
  pub extensions : List (Text × Value J)

pub record PublishedServiceAccount {ℓ} (J : Type ℓ) : Type ℓ where
  pub name : Text
  pub extensions : List (Text × Value J)

module _ {ℓ} {J : Type ℓ} where
  unfoldable pub take_required_uuid_vec :
      (Value J → Option (List ℕ))
      → List (Text × Value J)
      → Text
      → Result (List ℕ × List (Text × Value J)) (DirectoryError J)
  take_required_uuid_vec as_uuids bag key = elim (lookup bag key) [
    | none ↦ err (missing key)
    | some value ↦ elim (as_uuids value) [
      | some ids ↦ ok (ids, remove bag key)
      | none ↦ err (not_uuids key value)
    ]
  ]

  unfoldable pub new_group :
      Text → List ℕ → List (Text × Value J) → Result (PublishedGroup J) (DirectoryError J)
  new_group name member_ids extensions =
      reject_reserved_keys (bytes "PublishedGroup") published_group_reserved_keys extensions
      >> ok (record { name = name; member_ids = member_ids; extensions = extensions })

  unfoldable pub group_extension : PublishedGroup J → Text → Option (Value J)
  group_extension group key = lookup group.extensions key

  unfoldable pub has_member : PublishedGroup J → ℕ → Bool
  has_member group user_id = contains group.member_ids user_id

  unfoldable pub deserialize_group :
      (Value J → Option (List ℕ))
      → List (Text × Value J)
      → Result (PublishedGroup J) (DirectoryError J)
  deserialize_group as_uuids bag = take_required_string bag (bytes "name") >>= λ name.
      take_required_uuid_vec as_uuids name.1 (bytes "member_ids") >>= λ ids.
      new_group name.0 ids.0 ids.1

  unfoldable pub new_service_account :
      Text → List (Text × Value J) → Result (PublishedServiceAccount J) (DirectoryError J)
  new_service_account name extensions =
      reject_reserved_keys (bytes "PublishedServiceAccount") published_service_account_reserved_keys
        extensions
      >> ok (record { name = name; extensions = extensions })

  unfoldable pub account_extension : PublishedServiceAccount J → Text → Option (Value J)
  account_extension account key = lookup account.extensions key

  unfoldable pub deserialize_service_account :
      List (Text × Value J) → Result (PublishedServiceAccount J) (DirectoryError J)
  deserialize_service_account bag =
      take_required_string bag (bytes "name") >>= λ name. new_service_account name.0 name.1

  lookup-group :
      (bag : List (Text × Value J)) (j : Text)
      → lookup (remove (remove bag (bytes "name")) (bytes "member_ids")) j
        ≡ (if contains published_group_reserved_keys j then none else lookup bag j)
  lookup-group bag j = ground (
    arith,
    lookup-remove (remove bag (bytes "name")) (bytes "member_ids") j,
    lookup-remove bag (bytes "name") j,
  )

  take_uuids-ok :
      (as_uuids : Value J → Option (List ℕ)) (bag : List (Text × Value J)) (key : Text)
      (value : Value J) (ids : List ℕ)
      → lookup bag key ≡ some value
      → as_uuids value ≡ some ids
      → take_required_uuid_vec as_uuids bag key ≡ ok (ids, remove bag key)
  unfolding take_required_uuid_vec
  take_uuids-ok as_uuids bag key value ids e u = ground (arith, e, u)

  new_group-ok :
      (name : Text) (ids : List ℕ) (bag : List (Text × Value J))
      → new_group name ids (remove (remove bag (bytes "name")) (bytes "member_ids"))
        ≡ ok (record {
          name = name;
          member_ids = ids;
          extensions = remove (remove bag (bytes "name")) (bytes "member_ids");
        })
  unfolding new_group
  new_group-ok name ids bag =
      rw
        (
          new_group,
          reject_reserved_keys-ok (bytes "PublishedGroup") published_group_reserved_keys
              (remove (remove bag (bytes "name")) (bytes "member_ids"))
              (lookup-group bag (bytes "name"), (lookup-group bag (bytes "member_ids"), tt)),
        )
        refl

  -- An object whose name is a text and whose `member_ids` is a list of ids is read as the group with
  -- these; every other key of the object is an extension with its value, and no reserved key is one.
  pub deserialize_group_total :
      (as_uuids : Value J → Option (List ℕ)) (bag : List (Text × Value J)) (name : Text)
      (value : Value J) (ids : List ℕ) (j : Text)
      → lookup bag (bytes "name") ≡ some (string name)
      → lookup bag (bytes "member_ids") ≡ some value
      → as_uuids value ≡ some ids
      → (group : PublishedGroup J) × (deserialize_group as_uuids bag ≡ ok group)
        × (group.name ≡ name)
        × (group.member_ids ≡ ids)
        × (group_extension group j
            ≡ (if contains published_group_reserved_keys j then none else lookup bag j))
  unfolding deserialize_group group_extension
  deserialize_group_total as_uuids bag name value ids j n m u =
      let one = remove bag (bytes "name") in
      let m' : lookup one (bytes "member_ids") ≡ some value =
        rw (lookup-remove bag (bytes "name") (bytes "member_ids")) m in
      (
        record { name = name; member_ids = ids; extensions = remove one (bytes "member_ids") },
        rw
            (
              take_required_string-ok bag (bytes "name") name n,
              take_uuids-ok as_uuids one (bytes "member_ids") value ids m' u,
            )
            (new_group-ok name ids bag),
        refl,
        refl,
        lookup-group bag j,
      )
