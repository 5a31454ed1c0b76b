-- ===== src/Directory/Snapshot/Laws.antt =====
-- crates/br-util-directory/src/consumer/snapshot.rs: the directory as functions, and the changes to
-- it against changes to those functions.
use br_rust_common.Base.{
  ℕ, Bool, true, false, not, ◌&&◌, ◌||◌, Text, List, [], ◌∷◌, Option, some, nat_Eq, nat_eq,
  nat_eq_iff, lookup-insert, contains, ◌==◌, if◌then◌else◌, ◌≡◌, refl, arith, ◌∙◌, ap, Bool-cases,
  inl, inr,
}
use mathlib.Core.Path.{fun_ext}
use br_rust_common.Directory.Snapshot.{
  KnownUser, KnownServiceAccount, DirectorySnapshot, uuid_Ord, has_pair, retain_others, insert_pair,
  insert_members, upsert_user, upsert_group, set_members, upsert_service_account, resolve_user,
  is_member, group_name, resolve_service_account,
}

pub data Change {ℓ} (E : Type ℓ) : Type ℓ where
  user : KnownUser E → Change E
  group : ℕ → Text → Change E
  members : ℕ → List ℕ → Change E
  service_account : KnownServiceAccount → Change E

unfoldable pub apply_change {ℓ} :
    {E : Type ℓ} → DirectorySnapshot E → Change E → DirectorySnapshot E
apply_change s (user u) = upsert_user s u
apply_change s (group g name) = upsert_group s g name
apply_change s (members g us) = set_members s g us
apply_change s (service_account a) = upsert_service_account s a

abbrev pub apply_changes {ℓ} :
    {E : Type ℓ} → DirectorySnapshot E → List (Change E) → DirectorySnapshot E
apply_changes s [] = s
apply_changes s (c ∷ cs) = apply_changes (apply_change s c) cs

-- The directory as its readers see it.
pub record View {ℓ} (E : Type ℓ) : Type ℓ where
  pub users : ℕ → Option (KnownUser E)
  pub names : ℕ → Option Text
  pub member : ℕ → ℕ → Bool
  pub accounts : ℕ → Option KnownServiceAccount

unfoldable pub view {ℓ} : {E : Type ℓ} → DirectorySnapshot E → View E
view s = record {
  users = resolve_user s;
  names = group_name s;
  member = is_member s;
  accounts = resolve_service_account s;
}

-- The function with another value at one point, when the directory has such entries.
abbrev update {ℓ} : {A : Type ℓ} → Bool → (ℕ → A) → ℕ → A → ℕ → A
update published f k a j = if published && (j == k) then a else f j

-- What a change does to the view of a directory that publishes groups, or service accounts, or not.
unfoldable pub change_view {ℓ} : {E : Type ℓ} → Bool → Bool → View E → Change E → View E
change_view groups accounts v (user u) = record v { users = update true v.users u.user_id (some u) }
change_view groups accounts v (group g name) = record v {
  names = update groups v.names g (some name);
}
change_view groups accounts v (members g us) = record v {
  member = update groups v.member g (λ u. contains us u);
}
change_view groups accounts v (service_account a) = record v {
  accounts = update accounts v.accounts a.service_account_id (some a);
}

abbrev pub change_views {ℓ} : {E : Type ℓ} → Bool → Bool → View E → List (Change E) → View E
change_views groups accounts v [] = v
change_views groups accounts v (c ∷ cs) =
    change_views groups accounts (change_view groups accounts v c) cs

has_pair-insert_pair :
    (pairs : List (ℕ × ℕ)) (g u h w : ℕ)
    → has_pair (insert_pair pairs g u) h w ≡ ((nat_eq g h && nat_eq u w) || has_pair pairs h w)
unfolding insert_pair has_pair
has_pair-insert_pair pairs g u h w = elim (Bool-cases (has_pair pairs g u)) [
  | inl e ↦ ground (arith, e, nat_eq_iff g h, nat_eq_iff u w)
  | inr e ↦ ground (arith, e)
]

has_pair-retain_others :
    (pairs : List (ℕ × ℕ)) (g h w : ℕ)
    → has_pair (retain_others pairs g) h w ≡ (not (nat_eq g h) && has_pair pairs h w)
unfolding retain_others has_pair
has_pair-retain_others [] g h w = ground arith
has_pair-retain_others ((a, b) ∷ pairs) g h w =
    ground
      (arith, has_pair-retain_others pairs g h w, nat_eq_iff a g, nat_eq_iff g h, nat_eq_iff a h)

has_pair-insert_members :
    (pairs : List (ℕ × ℕ)) (g : ℕ) (us : List ℕ) (h w : ℕ)
    → has_pair (insert_members pairs g us) h w
      ≡ ((nat_eq g h && contains us w) || has_pair pairs h w)
unfolding insert_members
has_pair-insert_members pairs g [] h w = ground arith
has_pair-insert_members pairs g (u ∷ us) h w = ground (
  arith,
  has_pair-insert_members (insert_pair pairs g u) g us h w,
  has_pair-insert_pair pairs g u h w,
  nat_eq_iff u w,
  nat_eq_iff w u,
)

if-apply : (b : Bool) (f g : ℕ → Bool) (w : ℕ) → (if b then f w else g w) ≡ (if b then f else g) w
if-apply true f g w = refl
if-apply false f g w = refl

module _ {ℓ} {E : Type ℓ} where
  change_view-user :
      (s : DirectorySnapshot E) (u : KnownUser E) (a b : Bool)
      → view (upsert_user s u) ≡ change_view a b (view s) (user u)
  unfolding view upsert_user change_view resolve_user is_member group_name resolve_service_account
  change_view-user s u a b =
      ap (λ f. record (view s) { users = f })
        (fun_ext (λ j. lookup-insert ⦃ord = uuid_Ord⦄ u.user_id u s.users j))

  change_view-group :
      (s : DirectorySnapshot E) (g : ℕ) (name : Text) (b : Bool)
      → view (upsert_group s g name) ≡ change_view s.groups_published b (view s) (group g name)
  unfolding view upsert_group change_view resolve_user is_member group_name resolve_service_account
  change_view-group s g name b =
      ap (λ f. record (view s) { names = f })
        (fun_ext (λ j. ground (arith, lookup-insert ⦃ord = uuid_Ord⦄ g name s.group_names j)))

  set_members-at :
      (s : DirectorySnapshot E) (g : ℕ) (us : List ℕ) (h w : ℕ)
      → is_member (set_members s g us) h w
        ≡ (if s.groups_published && (h == g) then contains us w else is_member s h w)
  unfolding set_members is_member
  set_members-at s g us h w = ground (
    arith,
    has_pair-insert_members (retain_others s.memberships g) g us h w,
    has_pair-retain_others s.memberships g h w,
    nat_eq_iff g h,
    nat_eq_iff h g,
  )

  members-at :
      (s : DirectorySnapshot E) (g : ℕ) (us : List ℕ) (h w : ℕ)
      → is_member (set_members s g us) h w
        ≡ update s.groups_published (is_member s) g (λ u. contains us u) h w
  members-at s g us h w =
      set_members-at s g us h w
      ∙ if-apply (s.groups_published && (h == g)) (λ u. contains us u) (is_member s h) w

  change_view-members :
      (s : DirectorySnapshot E) (g : ℕ) (us : List ℕ) (b : Bool)
      → view (set_members s g us) ≡ change_view s.groups_published b (view s) (members g us)
  unfolding view set_members change_view resolve_user is_member group_name resolve_service_account
  change_view-members s g us b =
      ap (λ f. record (view s) { member = f }) (fun_ext (λ h. fun_ext (λ w. members-at s g us h w)))

  change_view-account :
      (s : DirectorySnapshot E) (a : KnownServiceAccount) (b : Bool)
      → view (upsert_service_account s a)
        ≡ change_view b s.service_accounts_published (view s) (service_account a)
  unfolding view upsert_service_account change_view resolve_user is_member group_name
      resolve_service_account
  change_view-account s a b =
      ap (λ f. record (view s) { accounts = f })
        (fun_ext (λ j.
          ground
            (arith, lookup-insert ⦃ord = uuid_Ord⦄ a.service_account_id a s.service_accounts j)))

  -- A change does not change what is published.
  published :
      (s : DirectorySnapshot E) (c : Change E)
      → ((apply_change s c).groups_published ≡ s.groups_published)
        × ((apply_change s c).service_accounts_published ≡ s.service_accounts_published)
  unfolding apply_change upsert_user upsert_group set_members upsert_service_account
  published s (user u) = (refl, refl)
  published s (group g name) = (refl, refl)
  published s (members g us) = (refl, refl)
  published s (service_account a) = (refl, refl)

  view-apply_change :
      (s : DirectorySnapshot E) (c : Change E)
      → view (apply_change s c)
        ≡ change_view s.groups_published s.service_accounts_published (view s) c
  unfolding apply_change
  view-apply_change s (user u) =
      change_view-user s u s.groups_published s.service_accounts_published
  view-apply_change s (group g name) = change_view-group s g name s.service_accounts_published
  view-apply_change s (members g us) = change_view-members s g us s.service_accounts_published
  view-apply_change s (service_account a) = change_view-account s a s.groups_published

  -- The snapshot refines the directory as its readers see it: after any changes, in order, each
  -- reader answers as the functions that the same changes give, each of which replaces what is
  -- known of one user, group or service account, or all the members of one group; where the
  -- manifest publishes no groups, or no service accounts, changes to these are not seen.
  pub view-apply_changes :
      (s : DirectorySnapshot E) (cs : List (Change E))
      → view (apply_changes s cs)
        ≡ change_views s.groups_published s.service_accounts_published (view s) cs
  view-apply_changes s [] = refl
  view-apply_changes s (c ∷ cs) =
      view-apply_changes (apply_change s c) cs
      ∙ rw (view-apply_change s c, (published s c).0, (published s c).1) refl
