-- ===== src/Fabric/Kv/Tests.antt =====
-- A small store, codec and sink, and runs of the projection and of the publisher on them. The store
-- is the log of its writes, the last one first; a revision is a position in the log.
use br_rust_common.Base.{
  ℕ, suc, ◌≤◌, ◌<◌, Bool, true, false, ◌&&◌, Text, bytes, List, [], ◌∷◌, Option, none, some, Result,
  ok, err, ◌==◌, text_Eq, nat_eq, nat_eq_iff, nat_Eq, lookup, contains, length, map, any,
  if◌then◌else◌, ◌≡◌, refl, arith, Bool-cases, inl, inr, insert, ltb,
}
use br_rust_common.Fabric.Consumer.Backoff.{new}
use br_rust_common.Fabric.Kv.Key.{KvKey, KvPrefix, kv_key_Eq, matches, new_key, validate}
use br_rust_common.Fabric.Kv.Orphans.{decide_put, orphans}
use br_rust_common.Fabric.Kv.Reconcile.{keys, reconcile, get, puts, deletes}
use br_rust_common.Fabric.Kv.Store.{
  Store, Codec, Entry, put, delete, UpdateErrorKind, wrong_last_revision, encode, decode,
  keep_value, scan_key, scan_keys_from, scan_all, scan_entries, scan_passing, kv_key_Ord,
}
use br_rust_common.Fabric.Kv.Store.Laws.{IsListing, listed, stored}
use br_rust_common.Fabric.Kv.Projection.{
  ProjectionSink, bootstrap, follow_once, follow_entries, apply_entry, apply_at, settle,
  project_all, retract_all,
}
use br_rust_common.Fabric.Kv.Projection.Laws.{SinkLaws, is_some}
use br_rust_common.Fabric.Kv.Projection.Follow.{shown}
use br_rust_common.Fabric.Kv.Projection.Cycle.{bootstrap-follow_once, History, ends, wrote}
use br_rust_common.Fabric.Kv.Projection.Total.{bootstrap_total, unwanted, present}
use br_rust_common.Fabric.Kv.Publisher.{
  reconcile_prefix, write_ops, write_op, put_value, retract, update_expecting, read_with_revision,
  live_value,
}
use br_rust_common.Fabric.Kv.Publisher.Laws.{IsMap, IsCodec, reconcile_prefix-stored}
use br_rust_common.Fabric.Kv.Publisher.Revision.{
  IsVersioned, Write, updating, putting, overwrites, update_expecting-overwrites,
}
use br_rust_common.Fabric.Kv.Supervisor.{start, after_reconcile, reconciles, Reaches, starts, steps}
use br_rust_common.Fabric.Kv.Supervisor.Laws.{Reaches-IsValid, IsValid}

abbrev flatten {ℓ} : {A : Type ℓ} → Option (Option A) → Option A
flatten none = none
flatten (some o) = o

abbrev Log : Type 0
Log = List (Text × Option Text)

abbrev value_at : Log → Text → Option Text
value_at log key = flatten (lookup log key)

unfoldable last : Log → Text → ℕ
last [] key = 0
last ((k, v) ∷ log) key =
    if key == k then suc (length {A = Text × Option Text} log) else last log key

abbrev entry_at : Log → Text → Option Text → Option Entry
entry_at log key none = none
entry_at log key (some value) =
    some (record { key = key; value = value; operation = put; revision = last log key })

abbrev write : Log → Text → Option Text → ℕ → Result ℕ (UpdateErrorKind × Text) × Log
write log key value expected =
    if nat_eq (last log key) expected
    then (ok (suc (length {A = Text × Option Text} log)), (key, value) ∷ log)
    else (err (wrong_last_revision, bytes "wrong last sequence"), log)

abbrev erase : Log → Text → Option ℕ → Result (Unit {0}) (UpdateErrorKind × Text) × Log
erase log key none = (ok tt, (key, none) ∷ log)
erase log key (some expected) =
    if nat_eq (last log key) expected
    then (ok tt, (key, none) ∷ log)
    else (err (wrong_last_revision, bytes "wrong last sequence"), log)

abbrev listed_item : Text × Option Text → Result Text Text
listed_item entry = ok entry.0

abbrev log_store : Store Log
log_store = record {
  keys = λ log. ok (map listed_item log);
  get = λ log key. ok (value_at log key);
  entry = λ log key. ok (entry_at log key (value_at log key));
  put = λ log key value. (ok (suc (length {A = Text × Option Text} log)), (key, some value) ∷ log);
  delete = λ log key. (ok tt, (key, none) ∷ log);
  create =
      λ log key value. (ok (suc (length {A = Text × Option Text} log)), (key, some value) ∷ log);
  update = λ log key value expected. write log key (some value) expected;
  delete_expect_revision = λ log key expected. erase log key expected;
}

listed-log :
    (log : Log) (key : Text) (v : Text)
    → value_at log key ≡ some v
    → listed (map listed_item log) key ≡ true
unfolding lookup listed
listed-log [] key v h = ground (arith, h)
listed-log ((k, o) ∷ log) key v h = ground (arith, h, listed-log log key v)

log_store-IsListing : IsListing log_store
log_store-IsListing = record {
  names = λ log items key v e g. ground (arith, e, g, listed-log log key v);
}

log_store-IsMap : IsMap log_store
unfolding lookup
log_store-IsMap = record {
  put_get = λ s after key v j n h. ground (arith, h);
  delete_get = λ s after key j h. ground (arith, h);
}

last_bound : (log : Log) (key : Text) → last log key ≤ length {A = Text × Option Text} log
unfolding last
last_bound [] key = omega arith
last_bound ((k, v) ∷ log) key = ground (arith, last_bound log key)

pushed-keeps : (log : Log) (key k : Text) (o : Option Text) → last log k ≤ last ((key, o) ∷ log) k
unfolding last
pushed-keeps log key k o = ground (arith, last_bound log k)

pushed-raises :
    (log : Log) (key : Text) (o : Option Text) → last log key < last ((key, o) ∷ log) key
unfolding last
pushed-raises log key o = ground (arith, last_bound log key, text_Eq.beq_iff key key)

write-keeps :
    (log : Log) (key k : Text) (o : Option Text) (expected : ℕ)
    → last log k ≤ last (write log key o expected).1 k
write-keeps log key k o expected = elim (Bool-cases (nat_eq (last log key) expected)) [
  | inl e ↦ ground (arith, e, pushed-keeps log key k o)
  | inr e ↦ ground (arith, e)
]

write-done :
    (log : Log) (key : Text) (o : Option Text) (expected n : ℕ)
    → (write log key o expected).0 ≡ ok n
    → (last log key ≡ expected) × (last log key < last (write log key o expected).1 key)
write-done log key o expected n h = elim (Bool-cases (nat_eq (last log key) expected)) [
  | inl e ↦ ground (arith, e, nat_eq_iff (last log key) expected, pushed-raises log key o)
  | inr e ↦ ground (arith, e, h)
]

erase-keeps :
    (log : Log) (key k : Text) (expected : Option ℕ)
    → last log k ≤ last (erase log key expected).1 k
erase-keeps log key k none = pushed-keeps log key k none
erase-keeps log key k (some expected) = elim (Bool-cases (nat_eq (last log key) expected)) [
  | inl e ↦ ground (arith, e, pushed-keeps log key k none)
  | inr e ↦ ground (arith, e)
]

erase-done :
    (log : Log) (key : Text) (expected : ℕ)
    → (erase log key (some expected)).0 ≡ ok tt
    → (last log key ≡ expected) × (last log key < last (erase log key (some expected)).1 key)
erase-done log key expected h = elim (Bool-cases (nat_eq (last log key) expected)) [
  | inl e ↦ ground (arith, e, nat_eq_iff (last log key) expected, pushed-raises log key none)
  | inr e ↦ ground (arith, e, h)
]

entry_at-revision :
    (log : Log) (key : Text) (o : Option Text) (entry : Entry)
    → entry_at log key o ≡ some entry
    → entry.revision ≡ last log key
entry_at-revision log key none entry h = ground (arith, h)
entry_at-revision log key (some v) entry h = ground (arith, h)

log_store-IsVersioned : IsVersioned log_store
log_store-IsVersioned = record {
  revision = last;
  entry_revision =
      λ s key entry h. entry_at-revision s key (value_at s key) entry (ground (arith, h));
  update_keeps = λ s key v k expected. write-keeps s key k (some v) expected;
  put_keeps = λ s key v k. pushed-keeps s key k (some v);
  delete_keeps = λ s key k expected. erase-keeps s key k expected;
  update_done = λ s key v expected n h. write-done s key (some v) expected n h;
  put_done = λ s key v n h. pushed-raises s key (some v);
  delete_done = λ s key expected h. erase-done s key expected h;
}

-- A number is written as a text of one unit.
abbrev read_number : Text → Result ℕ Text
read_number (n ∷ []) = ok n
read_number _ = err (bytes "not a number")

abbrev number_codec : Codec ℕ
number_codec = record { to_vec = λ n. ok (n ∷ []); from_slice = read_number }

number_codec-IsCodec : IsCodec number_codec
number_codec-IsCodec = record { from_to = λ v text h. ground (arith, h) }

-- The sink, a log too.
abbrev SinkLog : Type 0
SinkLog = List (KvKey × Option ℕ)

abbrev sink_view : SinkLog → KvKey → Option ℕ
sink_view log key = flatten (lookup log key)

abbrev live : SinkLog → List (KvKey × Option ℕ) → List KvKey
live all [] = []
live all ((k, o) ∷ log) =
    let rest = live all log in if is_some (sink_view all k) then k ∷ rest else rest

abbrev log_sink : ProjectionSink SinkLog ℕ Text
log_sink = record {
  project = λ log key v. (ok tt, (key, some v) ∷ log);
  retract = λ log key. (ok tt, (key, none) ∷ log);
  known_keys = λ log. ok (live log log);
}

contains-live :
    (all log : SinkLog) (j : KvKey)
    → contains (live all log) j ≡ (is_some (sink_view all j) && contains (keys log) j)
contains-live all [] j = ground arith
contains-live all ((k, o) ∷ log) j = ground (arith, contains-live all log j, kv_key_Eq.beq_iff j k)

view-keys :
    (log : SinkLog) (j : KvKey) → is_some (sink_view log j) ≡ true → contains (keys log) j ≡ true
unfolding lookup
view-keys [] j h = ground (arith, h)
view-keys ((k, o) ∷ log) j h = ground (arith, h, view-keys log j)

log_sink-SinkLaws : SinkLaws log_sink sink_view
unfolding lookup
log_sink-SinkLaws = record {
  project_view = λ k after key j v h. ground (arith, h);
  retract_view = λ k after key j h. ground (arith, h);
  known_view = λ k observed j h. ground (arith, h, contains-live k k j, view-keys k j);
}

abbrev first_log : Log
first_log =
    (bytes "a/1", some (7 ∷ [])) ∷ (bytes "b/1", some (3 ∷ [])) ∷ (bytes "a/2", some (20 ∷ [])) ∷ []

abbrev watched : List KvPrefix
watched = record { text = bytes "a/" } ∷ []

abbrev small : ℕ → Bool
small v = ltb v 10

abbrev stale_sink : SinkLog
stale_sink = (record { text = bytes "a/9" }, some 1) ∷ []

abbrev put_entry : Text → ℕ → Entry
put_entry key v = record { key = key; value = v ∷ []; operation = put; revision = 9 }

abbrev delete_a1 : Entry
delete_a1 = record { key = bytes "a/1"; value = []; operation = delete; revision = 10 }

-- A write that the watch does not give, and those that it gives.
abbrev window : List Entry
window = put_entry (bytes "a/5") 1 ∷ []

abbrev watch_entries : List Entry
watch_entries = put_entry (bytes "a/2") 5 ∷ put_entry (bytes "b/2") 6 ∷ delete_a1 ∷ []

abbrev subscribed_log : Log
subscribed_log = (bytes "a/5", some (1 ∷ [])) ∷ first_log

abbrev two_puts : Log
two_puts = (bytes "b/2", some (6 ∷ [])) ∷ (bytes "a/2", some (5 ∷ [])) ∷ subscribed_log

abbrev last_log : Log
last_log = (bytes "a/1", none) ∷ two_puts

pushed-get :
    (log : Log) (name key : Text) (o : Option Text)
    → log_store.get ((name, o) ∷ log) key ≡ (if key == name then ok o else log_store.get log key)
unfolding lookup
pushed-get log name key o = ground arith

window-History : History log_store first_log window subscribed_log
window-History =
    wrote first_log subscribed_log subscribed_log (put_entry (bytes "a/5") 1) []
      (λ key. pushed-get first_log (bytes "a/5") key (some (1 ∷ []))) (ends subscribed_log)

watch-History : History log_store subscribed_log watch_entries last_log
watch-History =
    let one_put : Log = (bytes "a/2", some (5 ∷ [])) ∷ subscribed_log in
    wrote subscribed_log one_put last_log (put_entry (bytes "a/2") 5)
      (put_entry (bytes "b/2") 6 ∷ delete_a1 ∷ [])
      (λ key. pushed-get subscribed_log (bytes "a/2") key (some (5 ∷ [])))
      (wrote one_put two_puts last_log (put_entry (bytes "b/2") 6) (delete_a1 ∷ [])
        (λ key. pushed-get one_put (bytes "b/2") key (some (6 ∷ [])))
        (wrote two_puts last_log last_log delete_a1 []
          (λ key. pushed-get two_puts (bytes "a/1") key none) (ends last_log)))

abbrev after_bootstrap : SinkLog
after_bootstrap =
    (record { text = bytes "a/9" }, none) ∷ (record { text = bytes "a/1" }, some 7) ∷ stale_sink

abbrev after_watch : SinkLog
after_watch =
    (record { text = bytes "a/1" }, none)
    ∷ (record { text = bytes "a/2" }, some 5)
    ∷ after_bootstrap

bootstrap-follow_once_example :
    sink_view after_watch (record { text = bytes "a/2" })
    ≡ shown small
        (any (λ p. matches p (bytes "a/2")) watched)
        (stored log_store number_codec last_log (bytes "a/2"))
        (sink_view stale_sink (record { text = bytes "a/2" }))
unfolding bootstrap scan_passing scan_all scan_keys_from scan_key keep_value decode settle
    project_all retract_all orphans validate new_key matches
    br_rust_common.Fabric.Kv.Key.starts_with insert lookup follow_once follow_entries apply_entry
    apply_at decide_put
bootstrap-follow_once_example =
    bootstrap-follow_once log_store number_codec log_sink sink_view watched small first_log
      subscribed_log last_log window watch_entries true stale_sink after_bootstrap after_watch
      (record { text = bytes "a/2" }) log_store-IsListing log_sink-SinkLaws refl window-History
      (refl, tt) watch-History refl

bootstrap_total_example :
    (bootstrap log_store number_codec log_sink watched small first_log stale_sink).0 ≡ ok tt
unfolding lookup matches br_rust_common.Fabric.Kv.Key.starts_with validate new_key
bootstrap_total_example =
    bootstrap_total log_store number_codec log_sink watched small first_log stale_sink
      (map listed_item first_log) refl
      (
        present (bytes "a/1") (7 ∷ []) 7 (record { text = bytes "a/1" }) refl refl refl refl,
        (
          unwanted (bytes "b/1") refl,
          (
            present (bytes "a/2") (20 ∷ []) 20 (record { text = bytes "a/2" }) refl refl refl refl,
            tt,
          ),
        ),
      )
      (record {
        projects = λ k key v. refl;
        retracts = λ k key. refl;
        knows = λ k. (live k k, refl);
      })

abbrev wanted_entries : List (KvKey × ℕ)
wanted_entries = (record { text = bytes "a/1" }, 7) ∷ (record { text = bytes "a/3" }, 8) ∷ []

reconcile_prefix-stored_example :
    stored log_store number_codec
      ((bytes "a/2", none) ∷ (bytes "a/3", some (8 ∷ [])) ∷ first_log)
      (bytes "a/2")
    ≡ (if matches (record { text = bytes "a/" }) (bytes "a/2")
        then get wanted_entries (record { text = bytes "a/2" })
        else none)
unfolding reconcile_prefix write_ops write_op put_value retract encode scan_entries scan_all
    scan_keys_from scan_key keep_value decode validate new_key matches
    br_rust_common.Fabric.Kv.Key.starts_with insert lookup reconcile puts deletes get kv_key_Ord
reconcile_prefix-stored_example =
    reconcile_prefix-stored log_store number_codec first_log
      ((bytes "a/2", none) ∷ (bytes "a/3", some (8 ∷ [])) ∷ first_log)
      (record { text = bytes "a/" }) wanted_entries (record { text = bytes "a/2" }) log_store-IsMap
      log_store-IsListing number_codec-IsCodec refl refl

abbrev a_key : KvKey
a_key = record { text = bytes "a/1" }

-- One writer writes another key, and one expects a revision that is past.
abbrev others : List (Write ℕ)
others = putting (record { text = bytes "b/1" }) 4 ∷ updating a_key 9 1 ∷ []

update_expecting-overwrites_example :
    overwrites log_store number_codec a_key first_log others ≡ false
unfolding read_with_revision live_value decode update_expecting encode put_value last lookup
update_expecting-overwrites_example =
    update_expecting-overwrites log_store number_codec log_store-IsVersioned first_log a_key 7 6
      others 3 5 refl refl

following_state : Reaches (new 200 800) (after_reconcile (ok tt) (start (new 200 800)))
unfolding start
following_state =
    steps (start (new 200 800)) (after_reconcile (ok tt) (start (new 200 800))) starts
      (reconciles (ok tt) (start (new 200 800)) refl)

Reaches-IsValid_example : IsValid (new 200 800) (after_reconcile (ok tt) (start (new 200 800)))
Reaches-IsValid_example =
    Reaches-IsValid 200 800 (after_reconcile (ok tt) (start (new 200 800))) (omega arith)
      (omega arith) following_state
