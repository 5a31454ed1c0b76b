-- ===== src/Directory/Snapshot.antt =====
-- crates/br-util-directory/src/consumer/snapshot.rs: the directory in memory. A map is the list of
-- its entries in order, and the set of memberships a list of pairs, whose order nothing reads. The
-- persisted extensions are an argument `E`, with their JSON value.
pub mod Laws
use br_rust_common.Base.{
  ℕ, Bool, true, false, not, ◌&&◌, ◌||◌, Text, List, [], ◌∷◌, Option, none, some, nat_Eq, nat_eq,
  ltb, Ord, insert, lookup, if◌then◌else◌, ◌≡◌, arith,
}
use br_rust_common.Directory.Meta.{DirectoryMeta, publishes_groups, publishes_service_accounts}
use mathlib.Core.Option

pub record KnownUser {ℓ} (E : Type ℓ) : Type ℓ where
  pub user_id : ℕ
  pub email : Text
  pub first_name : Option Text
  pub last_name : Option Text
  pub extensions : E

pub record KnownServiceAccount : Type 0 where
  pub service_account_id : ℕ
  pub name : Text

pub record DirectorySnapshot {ℓ} (E : Type ℓ) : Type ℓ where
  pub groups_published : Bool
  pub service_accounts_published : Bool
  pub users : List (ℕ × KnownUser E)
  pub group_names : List (ℕ × Text)
  pub memberships : List (ℕ × ℕ)
  pub service_accounts : List (ℕ × KnownServiceAccount)

nat_lt_irrefl : (a : ℕ) → ltb a a ≡ false
nat_lt_irrefl a = ground arith

nat_lt_trans : (a b c : ℕ) → ltb a b ≡ true → ltb b c ≡ true → ltb a c ≡ true
nat_lt_trans a b c h k = ground arith

nat_lt_total : (a b : ℕ) → ltb a b ≡ false → ltb b a ≡ false → a ≡ b
nat_lt_total a b h k = ground arith

-- The order of `Uuid`.
pub uuid_Ord : Ord ℕ
uuid_Ord = record {
  lt = ltb;
  lt_irrefl = nat_lt_irrefl;
  lt_trans = nat_lt_trans;
  lt_total = nat_lt_total;
}

-- `BTreeSet::contains`, `retain` and `insert` on the memberships.
unfoldable pub has_pair : List (ℕ × ℕ) → ℕ → ℕ → Bool
has_pair [] group user = false
has_pair ((g, u) ∷ pairs) group user =
    (nat_eq g group && nat_eq u user) || has_pair pairs group user

unfoldable pub retain_others : List (ℕ × ℕ) → ℕ → List (ℕ × ℕ)
retain_others [] group = []
retain_others ((g, u) ∷ pairs) group =
    let rest = retain_others pairs group in if nat_eq g group then rest else (g, u) ∷ rest

unfoldable pub insert_pair : List (ℕ × ℕ) → ℕ → ℕ → List (ℕ × ℕ)
insert_pair pairs group user = if has_pair pairs group user then pairs else (group, user) ∷ pairs

-- The loop of `set_members`.
unfoldable pub insert_members : List (ℕ × ℕ) → ℕ → List ℕ → List (ℕ × ℕ)
insert_members pairs group [] = pairs
insert_members pairs group (user ∷ users) =
    insert_members (insert_pair pairs group user) group users

module _ {ℓ} {E : Type ℓ} where
  unfoldable pub new_snapshot : DirectoryMeta → DirectorySnapshot E
  new_snapshot manifest = record {
    groups_published = publishes_groups manifest;
    service_accounts_published = publishes_service_accounts manifest;
    users = [];
    group_names = [];
    memberships = [];
    service_accounts = [];
  }

  unfoldable pub upsert_user : DirectorySnapshot E → KnownUser E → DirectorySnapshot E
  upsert_user s user = record s { users = insert ⦃ord = uuid_Ord⦄ user.user_id user s.users }

  unfoldable pub upsert_group : DirectorySnapshot E → ℕ → Text → DirectorySnapshot E
  upsert_group s group name = record s {
    group_names = insert ⦃ord = uuid_Ord⦄ group name s.group_names;
  }

  unfoldable pub set_members : DirectorySnapshot E → ℕ → List ℕ → DirectorySnapshot E
  set_members s group members = record s {
    memberships = insert_members (retain_others s.memberships group) group members;
  }

  unfoldable pub upsert_service_account :
      DirectorySnapshot E → KnownServiceAccount → DirectorySnapshot E
  upsert_service_account s account = record s {
    service_accounts =
        insert ⦃ord = uuid_Ord⦄ account.service_account_id account s.service_accounts;
  }

  unfoldable pub resolve_user : DirectorySnapshot E → ℕ → Option (KnownUser E)
  resolve_user s user = lookup s.users user

  unfoldable pub user_extensions {κ} : {J : Type κ} → (E → J) → DirectorySnapshot E → ℕ → Option J
  user_extensions as_value s user = Option.map (λ u. as_value u.extensions) (lookup s.users user)

  unfoldable pub is_member : DirectorySnapshot E → ℕ → ℕ → Bool
  is_member s group user = s.groups_published && has_pair s.memberships group user

  unfoldable pub group_name : DirectorySnapshot E → ℕ → Option Text
  group_name s group = if not s.groups_published then none else lookup s.group_names group

  unfoldable pub resolve_service_account : DirectorySnapshot E → ℕ → Option KnownServiceAccount
  resolve_service_account s account =
      if not s.service_accounts_published then none else lookup s.service_accounts account
