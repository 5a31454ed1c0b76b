-- ===== src/Directory/Meta.antt =====
-- crates/br-core-directory/src/meta.rs: what a directory says it publishes.
use br_rust_common.Base.{
  ℕ, Bool, true, false, Text, bytes, List, ◌==◌, text_Eq, any, if◌then◌else◌, ◌≡◌, arith,
}

pub data PublishedEntity : Type 0 where
  users groups service_accounts : PublishedEntity
  other : Text → PublishedEntity

unfoldable pub as_wire : PublishedEntity → Text
as_wire users = bytes "users"
as_wire groups = bytes "groups"
as_wire service_accounts = bytes "service_accounts"
as_wire (other raw) = raw

unfoldable pub from_wire : Text → PublishedEntity
from_wire raw =
    if raw == bytes "users"
    then users
    else if raw == bytes "groups"
    then groups
    else if raw == bytes "service_accounts"
    then service_accounts
    else other raw

-- The derived `PartialEq`.
abbrev pub entity_eq : PublishedEntity → PublishedEntity → Bool
entity_eq users users = true
entity_eq groups groups = true
entity_eq service_accounts service_accounts = true
entity_eq (other a) (other b) = a == b
entity_eq _ _ = false

pub record DirectoryMeta : Type 0 where
  pub version : ℕ
  pub entities : List PublishedEntity

unfoldable pub publishes : DirectoryMeta → PublishedEntity → Bool
publishes manifest entity = any (λ e. entity_eq e entity) manifest.entities

unfoldable pub publishes_users : DirectoryMeta → Bool
publishes_users manifest = publishes manifest users

unfoldable pub publishes_groups : DirectoryMeta → Bool
publishes_groups manifest = publishes manifest groups

unfoldable pub publishes_service_accounts : DirectoryMeta → Bool
publishes_service_accounts manifest = publishes manifest service_accounts

-- Every text is read as an entity that is written as that text again, so a kind that this version
-- does not know is kept.
pub as_wire-from_wire : (raw : Text) → as_wire (from_wire raw) ≡ raw
unfolding as_wire from_wire
as_wire-from_wire raw = ground (
  arith,
  text_Eq.beq_iff raw (bytes "users"),
  text_Eq.beq_iff raw (bytes "groups"),
  text_Eq.beq_iff raw (bytes "service_accounts"),
)

from_wire-entity_eq :
    (raw : Text)
    → (entity_eq (from_wire raw) users ≡ (raw == bytes "users"))
      × (entity_eq (from_wire raw) groups ≡ (raw == bytes "groups"))
      × (entity_eq (from_wire raw) service_accounts ≡ (raw == bytes "service_accounts"))
unfolding from_wire
from_wire-entity_eq raw = (
  ground (arith, text_Eq.beq_iff raw (bytes "users"), text_Eq.beq_iff raw (bytes "groups")),
  ground (arith, text_Eq.beq_iff raw (bytes "users"), text_Eq.beq_iff raw (bytes "groups")),
  ground (
    arith,
    text_Eq.beq_iff raw (bytes "users"),
    text_Eq.beq_iff raw (bytes "groups"),
    text_Eq.beq_iff raw (bytes "service_accounts"),
  ),
)
