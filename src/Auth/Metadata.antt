-- ===== src/Auth/Metadata.antt =====
-- crates/br-core-events/src/metadata.rs: who caused an event, as it is written and read. The wire
-- form has a field that older writers leave out.
use br_rust_common.Base.{ℕ, Option, none, some, if◌then◌else◌, ◌≡◌, refl, ap}
use br_rust_common.Auth.Actor.{Actor, human, service, id, is_human}

pub record EventMetadata : Type 0 where
  pub actor : Actor
  pub correlation_id : ℕ
  pub causation_id : Option ℕ

unfoldable pub new : Actor → ℕ → EventMetadata
new actor correlation_id = record {
  actor = actor;
  correlation_id = correlation_id;
  causation_id = none;
}

unfoldable pub with_causation : EventMetadata → ℕ → EventMetadata
with_causation metadata causation_id = record metadata { causation_id = some causation_id }

pub data ActorKindWire : Type 0 where
  human_kind service_kind : ActorKindWire

pub record MetadataWire : Type 0 where
  pub actor_id : ℕ
  pub actor_kind : Option ActorKindWire
  pub correlation_id : ℕ
  pub causation_id : Option ℕ

unfoldable pub serialize : EventMetadata → MetadataWire
serialize m = record {
  actor_id = id m.actor;
  actor_kind = some (if is_human m.actor then human_kind else service_kind);
  correlation_id = m.correlation_id;
  causation_id = m.causation_id;
}

unfoldable pub actor_of : ℕ → Option ActorKindWire → Actor
actor_of actor_id (some service_kind) = service (record { uuid = actor_id })
actor_of actor_id (some human_kind) = human (record { uuid = actor_id })
actor_of actor_id none = human (record { uuid = actor_id })

unfoldable pub deserialize : MetadataWire → EventMetadata
deserialize wire = record {
  actor = actor_of wire.actor_id wire.actor_kind;
  correlation_id = wire.correlation_id;
  causation_id = wire.causation_id;
}

actor_of-id :
    (a : Actor) → actor_of (id a) (some (if is_human a then human_kind else service_kind)) ≡ a
unfolding actor_of id is_human
actor_of-id (human user) = refl
actor_of-id (service account) = refl

-- Metadata that is written is read as it was, a service's actor as a service and a human's as a
-- human; without the kind of the actor, as older writers leave it, the actor is read as a human.
pub deserialize-serialize :
    (m : EventMetadata)
    → (deserialize (serialize m) ≡ m)
      × (deserialize (record (serialize m) { actor_kind = none })
          ≡ record m { actor = human (record { uuid = id m.actor }) })
unfolding deserialize serialize actor_of
deserialize-serialize m = (ap (λ a. record m { actor = a }) (actor_of-id m.actor), refl)
