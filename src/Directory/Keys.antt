-- ===== src/Directory/Keys.antt =====
-- crates/br-core-directory/src/keys.rs: the keys of the directory's entries. `Display` and
-- `parse_str` of a `Uuid` are arguments.
use br_rust_common.Base.{ℕ, Text, bytes, ◌++◌, Option, none, some, strip_prefix, ◌≡◌, refl, arith}

abbrev pub users_key_prefix : Text
users_key_prefix = bytes "identity/users/"

abbrev pub groups_key_prefix : Text
groups_key_prefix = bytes "identity/groups/"

abbrev pub service_accounts_key_prefix : Text
service_accounts_key_prefix = bytes "identity/service_accounts/"

abbrev pub meta_key : Text
meta_key = bytes "identity/_meta"

unfoldable pub user_kv_key : (ℕ → Text) → ℕ → Text
user_kv_key display user_id = users_key_prefix ++ display user_id

unfoldable pub group_kv_key : (ℕ → Text) → ℕ → Text
group_kv_key display group_id = groups_key_prefix ++ display group_id

unfoldable pub service_account_kv_key : (ℕ → Text) → ℕ → Text
service_account_kv_key display id = service_accounts_key_prefix ++ display id

abbrev parse_after : Text → (Text → Option ℕ) → Text → Option ℕ
parse_after prefix parse_str key = elim (strip_prefix key prefix) [
  | some id ↦ parse_str id
  | none ↦ none
]

unfoldable pub user_id_from_kv_key : (Text → Option ℕ) → Text → Option ℕ
user_id_from_kv_key parse_str key = parse_after users_key_prefix parse_str key

unfoldable pub group_id_from_kv_key : (Text → Option ℕ) → Text → Option ℕ
group_id_from_kv_key parse_str key = parse_after groups_key_prefix parse_str key

unfoldable pub service_account_id_from_kv_key : (Text → Option ℕ) → Text → Option ℕ
service_account_id_from_kv_key parse_str key = parse_after service_accounts_key_prefix parse_str key

-- What each of the three readers says of a key: the user's, the group's, the service account's.
abbrev pub read_key : (Text → Option ℕ) → Text → Option ℕ × Option ℕ × Option ℕ
read_key parse_str key = (
  user_id_from_kv_key parse_str key,
  group_id_from_kv_key parse_str key,
  service_account_id_from_kv_key parse_str key,
)

-- Each key is read back, as an id of its own kind and of no other, and the key of the manifest as
-- none; `parse_str` reads what `Display` writes.
pub read_key-kv_key :
    (display : ℕ → Text) (parse_str : Text → Option ℕ) (id : ℕ)
    → parse_str (display id) ≡ some id
    → (read_key parse_str (user_kv_key display id) ≡ (some id, none, none))
      × (read_key parse_str (group_kv_key display id) ≡ (none, some id, none))
      × (read_key parse_str (service_account_kv_key display id) ≡ (none, none, some id))
      × (read_key parse_str meta_key ≡ (none, none, none))
unfolding user_kv_key group_kv_key service_account_kv_key user_id_from_kv_key group_id_from_kv_key
    service_account_id_from_kv_key strip_prefix
read_key-kv_key display parse_str id h =
    (ground (arith, h), ground (arith, h), ground (arith, h), refl)
