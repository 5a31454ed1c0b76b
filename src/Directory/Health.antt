-- ===== src/Directory/Health.antt =====
-- crates/br-util-directory/src/consumer/health.rs: the health of a projector, composed of the
-- health of the streams it watches, and `active_streams` of project.rs. The map of the streams is a
-- function. An operation changes the streams and composes their health under the lock, and sends
-- what it composed after it left the lock: another operation may come between the two.
pub mod Worst
pub mod Laws
use br_rust_common.Base.{
  ℕ, ◌+◌, ◌%◌, ◌^◌, Bool, true, false, ◌&&◌, not, List, [], ◌∷◌, ◌++◌, Option, none, some, nat_eq,
  any, all, if◌then◌else◌,
}
use br_rust_common.Fabric.Kv.Supervisor.{WatchHealth, healthy, degraded, set_health}

pub data DirectoryStream : Type 0 where
  users groups service_accounts : DirectoryStream

abbrev pub stream_eq : DirectoryStream → DirectoryStream → Bool
stream_eq users users = true
stream_eq users groups = false
stream_eq users service_accounts = false
stream_eq groups users = false
stream_eq groups groups = true
stream_eq groups service_accounts = false
stream_eq service_accounts users = false
stream_eq service_accounts groups = false
stream_eq service_accounts service_accounts = true

-- `BTreeMap<DirectoryStream, WatchHealth>`, with `values`, in the order of the keys.
abbrev pub StreamMap : Type 0
StreamMap = DirectoryStream → Option WatchHealth

abbrev pub present : List (Option WatchHealth) → List WatchHealth
present [] = []
present (none ∷ slots) = present slots
present (some health ∷ slots) = health ∷ present slots

abbrev pub slots : StreamMap → List (Option WatchHealth)
slots streams = streams users ∷ streams groups ∷ streams service_accounts ∷ []

abbrev pub is_healthy : WatchHealth → Bool
is_healthy healthy = true
is_healthy degraded = false

abbrev pub is_empty : List WatchHealth → Bool
is_empty [] = true
is_empty (_ ∷ _) = false

-- What the lock holds.
pub record Activation : Type 0 where
  pub generation : ℕ
  pub streams : StreamMap

-- The channel's value, and the value behind the lock.
pub record ProjectorHealth : Type 0 where
  pub current : WatchHealth
  pub activation : Activation

unfoldable pub new_health : ProjectorHealth
new_health = record {
  current = degraded;
  activation = record { generation = 0; streams = λ _. none };
}

-- `streams.values()`.
abbrev pub values : StreamMap → List WatchHealth
values streams = present (slots streams)

unfoldable pub worst_of : StreamMap → WatchHealth
worst_of streams =
    if not (is_empty (values streams)) && all is_healthy (values streams) then healthy else degraded

-- The part of `mutate` under the lock, with what it composed.
unfoldable pub lock : (Activation → Activation) → ProjectorHealth → ProjectorHealth × WatchHealth
lock change h =
    let activation = change h.activation in
    (record h { activation = activation }, worst_of activation.streams)

-- The rest of `mutate`, `send_if_modified`.
unfoldable pub send : WatchHealth → ProjectorHealth → ProjectorHealth
send composed h = record h { current = (set_health h.current composed).1 }

-- `mutate`, when no other operation comes between.
unfoldable pub mutate : (Activation → Activation) → ProjectorHealth → ProjectorHealth
mutate change h = let (after, composed) = lock change h in send composed after

-- The changes of `activate`, `set` and `deactivate`. The token that `activate` returns holds the
-- generation after it.
unfoldable pub activate : List DirectoryStream → Activation → Activation
activate active a = record {
  generation = (a.generation + 1) % 2 ^ 64;
  streams = λ s. if any (λ t. stream_eq t s) active then some degraded else none;
}

-- `get_mut`, and the write to the slot.
unfoldable pub write_slot : Option WatchHealth → WatchHealth → Option WatchHealth
write_slot none _ = none
write_slot (some _) reported = some reported

unfoldable pub set_stream : DirectoryStream → WatchHealth → Activation → Activation
set_stream stream health a = record a {
  streams = λ s. if stream_eq stream s then write_slot (a.streams s) health else a.streams s;
}

unfoldable pub deactivate : ℕ → Activation → Activation
deactivate generation a = record a {
  streams = if nat_eq a.generation generation then (λ _. none) else a.streams;
}

unfoldable pub active_streams : Bool → Bool → List DirectoryStream
active_streams watch_groups watch_service_accounts =
    users
    ∷ ((if watch_groups then groups ∷ [] else [])
        ++ (if watch_service_accounts then service_accounts ∷ [] else []))
