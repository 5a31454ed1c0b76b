-- ===== src/Auth/Actor.antt =====
-- crates/br-core-kernel/src/lib.rs and actor.rs: the ids of users and service accounts, and the
-- actor that is one of them. A `Uuid` is the number of its 128 bits.
use br_rust_common.Base.{ℕ, Bool, true, false}

pub record UserId : Type 0 where
  pub uuid : ℕ

pub record ServiceAccountId : Type 0 where
  pub uuid : ℕ

pub data Actor : Type 0 where
  human : UserId → Actor
  service : ServiceAccountId → Actor

unfoldable pub id : Actor → ℕ
id (human user) = user.uuid
id (service account) = account.uuid

unfoldable pub is_human : Actor → Bool
is_human (human _) = true
is_human (service _) = false

unfoldable pub is_service : Actor → Bool
is_service (human _) = false
is_service (service _) = true
