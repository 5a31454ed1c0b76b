-- ===== src/Directory/Tests.antt =====
-- Runs of the directory on small inputs.
use br_rust_common.Base.{
  ℕ, true, false, Text, bytes, List, [], ◌∷◌, none, some, Result, ok, lookup, contains,
  if◌then◌else◌, ◌≡◌, refl, All, text_Eq, ◌↔◌,
}
use br_rust_common.Directory.Meta.{
  DirectoryMeta, users, groups, publishes_groups, publishes_service_accounts, publishes,
}
use br_rust_common.Directory.Snapshot.{
  DirectorySnapshot, KnownUser, new_snapshot, is_member, set_members, upsert_user, has_pair,
  insert_members, insert_pair, retain_others,
}
use br_rust_common.Directory.Snapshot.Laws.{
  Change, user, group, members, apply_changes, apply_change, change_views, view, view-apply_changes,
}
use br_rust_common.Directory.User.{
  Value, string, null, other, PublishedUser, deserialize_user, extension,
  published_user_reserved_keys, deserialize_user_total,
}
use br_rust_common.Directory.Ledger.{
  Migration, Database, apply_pending, apply_each, apply_one, record_migration, adopted_from_legacy,
}
use br_rust_common.Directory.Ledger.Laws.{apply_pending-twice, Extends, IsRecorded}
use br_rust_common.Directory.Health.{
  ProjectorHealth, new_health, activate, active_streams, lock, send, mutate, set_stream, deactivate,
  write_slot, worst_of,
}
use br_rust_common.Fabric.Kv.Supervisor.{WatchHealth, healthy, degraded}
use br_rust_common.Directory.Health.Laws.{
  Event, turned, dropped, sent, run_events, latest, activate-healthy,
}

abbrev manifest : DirectoryMeta
manifest = record { version = 1; entities = users ∷ groups ∷ [] }

abbrev alice : KnownUser ℕ
alice = record {
  user_id = 1;
  email = bytes "a@x";
  first_name = none;
  last_name = none;
  extensions = 0;
}

abbrev changes : List (Change ℕ)
changes = user alice ∷ group 7 (bytes "staff") ∷ members 7 (1 ∷ 2 ∷ []) ∷ members 7 (1 ∷ []) ∷ []

member_one : is_member (apply_changes (new_snapshot {E = ℕ} manifest) changes) 7 1 ≡ true
unfolding is_member new_snapshot publishes_groups publishes apply_change set_members upsert_user
    has_pair insert_members insert_pair retain_others br_rust_common.Directory.Snapshot.upsert_group
member_one = refl

member_two : is_member (apply_changes (new_snapshot {E = ℕ} manifest) changes) 7 2 ≡ false
unfolding is_member new_snapshot publishes_groups publishes apply_change set_members upsert_user
    has_pair insert_members insert_pair retain_others br_rust_common.Directory.Snapshot.upsert_group
member_two = refl

view-apply_changes_example :
    view (apply_changes (new_snapshot {E = ℕ} manifest) changes)
    ≡ change_views true false (view (new_snapshot manifest)) changes
unfolding new_snapshot publishes_groups publishes_service_accounts publishes
view-apply_changes_example = view-apply_changes (new_snapshot manifest) changes

-- The SQL of a migration is put at the end of the schema, a text.
abbrev append_sql : Text → List Text → Result (List Text) Text
append_sql sql schema = ok (sql ∷ schema)

abbrev two_migrations : List Migration
two_migrations =
    record { version = 1; checksum = bytes "c1"; sql = bytes "one" }
    ∷ record { version = 2; checksum = bytes "c2"; sql = bytes "two" }
    ∷ []

abbrev empty_database : Database (List Text)
empty_database = record {
  recorded = [];
  legacy = some (record { version = 1; checksum = bytes "c1"; success = true } ∷ []);
  schema = [];
}

abbrev migrated_database : Database (List Text)
migrated_database = record {
  recorded = (2, bytes "c2") ∷ (1, bytes "c1") ∷ [];
  legacy = some (record { version = 1; checksum = bytes "c1"; success = true } ∷ []);
  schema = bytes "two" ∷ [];
}

apply_pending-twice_example :
    All (IsRecorded migrated_database) two_migrations
    × Extends [] migrated_database.recorded
    × (apply_pending append_sql migrated_database two_migrations ≡ ok migrated_database)
unfolding apply_pending apply_each apply_one record_migration adopted_from_legacy lookup
apply_pending-twice_example =
    apply_pending-twice append_sql empty_database migrated_database two_migrations refl

abbrev user_bag : List (Text × Value ℕ)
user_bag =
    (bytes "email", string (bytes "a@x"))
    ∷ (bytes "first_name", null)
    ∷ (bytes "team", other 5)
    ∷ []

deserialize_user_total_example :
    (u : PublishedUser ℕ) × (deserialize_user user_bag ≡ ok u)
    × (u.email ≡ bytes "a@x")
    × (u.first_name ≡ none)
    × (u.last_name ≡ none)
    × (extension u (bytes "team") ≡ (
        if contains published_user_reserved_keys (bytes "team")
        then none
        else lookup user_bag (bytes "team")))
unfolding lookup
deserialize_user_total_example =
    deserialize_user_total user_bag (bytes "a@x") none none (bytes "team") refl refl refl

-- The users and the service accounts turn healthy; the token of an older activation is dropped, and
-- what that drop composed is sent late.
abbrev reports : List Event
reports =
    turned br_rust_common.Directory.Health.users healthy
    ∷ turned br_rust_common.Directory.Health.groups degraded
    ∷ dropped 0
    ∷ turned br_rust_common.Directory.Health.service_accounts healthy
    ∷ sent degraded
    ∷ []

activate-healthy_example :
    (let (end, composed) =
          run_events (lock (activate (active_streams false true)) new_health) reports in
        (send composed end).current)
      ≡ healthy
    ↔ (¬ (active_streams false true ≡ []))
      × All (λ s. latest degraded reports s ≡ healthy) (active_streams false true)
unfolding new_health
activate-healthy_example =
    activate-healthy new_health (active_streams false true) reports
      (tt, (tt, (refl, (tt, (tt, tt)))))

-- The send of an operation that left the lock before another one hides what that one sent.
abbrev after_late : ProjectorHealth × WatchHealth
after_late =
    let (early, stale) = lock (deactivate 0) new_health in
    let opened = mutate (activate (br_rust_common.Directory.Health.users ∷ [])) early in
    (mutate (set_stream br_rust_common.Directory.Health.users healthy) opened, stale)

late_send : (after_late.0.current ≡ healthy) × ((send after_late.1 after_late.0).current ≡ degraded)
unfolding new_health lock send mutate activate set_stream deactivate write_slot worst_of
    br_rust_common.Fabric.Kv.Supervisor.set_health
late_send = (refl, refl)
