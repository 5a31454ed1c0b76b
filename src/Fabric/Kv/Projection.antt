-- ===== src/Fabric/Kv/Projection.antt =====
-- crates/br-util-nats-fabric/src/kv/consumer.rs and sink.rs: a projection of the store into a sink.
-- The store, the codec and the sink are arguments; the watch is the list of what it yields.
pub mod Laws
pub mod Follow
pub mod Cycle
pub mod Total
use br_rust_common.Base.{
  Bool, true, false, Text, List, [], ◌∷◌, Result, ok, err, ◌>>=◌, map_err, any, if◌then◌else◌,
}
use br_rust_common.Fabric.Error
use br_rust_common.Fabric.Error.{FabricError}
use br_rust_common.Fabric.Kv.Key.{KvKey, KvPrefix, new_key, matches}
use br_rust_common.Fabric.Kv.Orphans.{EntryAction, project, retract, decide_put, orphans}
use br_rust_common.Fabric.Kv.Reconcile.{keys}
use br_rust_common.Fabric.Kv.Store.{
  Store, Codec, Entry, Operation, put, delete, purge, decode, scan_passing,
}

pub data ProjectionError {ℓ} (X : Type ℓ) : Type ℓ where
  fabric : FabricError → ProjectionError X
  sink : X → ProjectionError X

-- The trait `ProjectionSink`: a call gives the sink after it, also when it fails.
pub record ProjectionSink {ℓ κ μ} (K : Type ℓ) (V : Type κ) (X : Type μ) : Type (ℓ ⊔ κ ⊔ μ) where
  pub project : K → KvKey → V → Result (Unit {0}) X × K
  pub retract : K → KvKey → Result (Unit {0}) X × K
  pub known_keys : K → Result (List KvKey) X

pub record FollowReport : Type 0 where
  pub progressed : Bool
  pub outcome : Result (Unit {0}) Text

module _ {ℓ κ μ} {K : Type ℓ} {V : Type κ} {X : Type μ} (out : ProjectionSink K V X) where
  -- The two loops of `bootstrap`.
  unfoldable pub project_all : K → List (KvKey × V) → Result (Unit {0}) (ProjectionError X) × K
  project_all k [] = (ok tt, k)
  project_all k ((key, value) ∷ desired) =
      let (r, after) = out.project k key value in
      elim r [ ok _ ↦ project_all after desired | err e ↦ (err (sink e), after) ]

  unfoldable pub retract_all : K → List KvKey → Result (Unit {0}) (ProjectionError X) × K
  retract_all k [] = (ok tt, k)
  retract_all k (key ∷ orphaned) =
      let (r, after) = out.retract k key in
      elim r [ ok _ ↦ retract_all after orphaned | err e ↦ (err (sink e), after) ]

  -- The rest of `bootstrap`, once the store is read.
  unfoldable pub settle :
      List KvPrefix → List (KvKey × V) → K → Result (Unit {0}) (ProjectionError X) × K
  settle prefixes desired k =
      let (r, after) = project_all k desired in
      elim r [
        | err e ↦ (err e, after)
        | ok _ ↦ elim (out.known_keys after) [
          | err e ↦ (err (sink e), after)
          | ok observed ↦ retract_all after (orphans observed (keys desired) prefixes)
        ]
      ]

  -- `apply_entry`, once the key is read.
  unfoldable pub apply_at :
      Codec V → (V → Bool) → Entry → KvKey → K → Result (Unit {0}) (ProjectionError X) × K
  apply_at codec copy_filter entry key k =
      let (retracted, after) = out.retract k key in
      let retraction : Result (Unit {0}) (ProjectionError X) × K =
        (map_err sink retracted, after) in
      elim entry.operation [
        | delete ↦ retraction
        | purge ↦ retraction
        | put ↦ elim (decode codec entry.key entry.value) [
          | err e ↦ (err (fabric e), k)
          | ok value ↦ elim (decide_put copy_filter value) [
            | project ↦
                let (projected, since) = out.project k key value in (map_err sink projected, since)
            | retract ↦ retraction
          ]
        ]
      ]

  unfoldable pub apply_entry :
      Codec V → (V → Bool) → Entry → K → Result (Unit {0}) (ProjectionError X) × K
  apply_entry codec copy_filter entry k = elim (new_key entry.key) [
    | err e ↦ (err (fabric (Error.kv_key e)), k)
    | ok key ↦ apply_at codec copy_filter entry key k
  ]

  -- The loop of `follow_once` over what the watch yields, with `delivered`.
  unfoldable pub follow_entries :
      List KvPrefix
      → Codec V
      → (V → Bool)
      → Bool
      → List (Result Entry Text)
      → K
      → Bool × Result (Unit {0}) (ProjectionError X) × K
  follow_entries prefixes codec copy_filter delivered [] k = (delivered, ok tt, k)
  follow_entries prefixes codec copy_filter delivered (err e ∷ entries) k =
      (delivered, err (fabric (Error.kv e)), k)
  follow_entries prefixes codec copy_filter delivered (ok entry ∷ entries) k =
      let (r, after) = apply_entry codec copy_filter entry k in
      elim (any (λ p. matches p entry.key) prefixes) [
        | false ↦ follow_entries prefixes codec copy_filter true entries k
        | true ↦ elim r [
          | ok _ ↦ follow_entries prefixes codec copy_filter true entries after
          | err e ↦ (true, err e, after)
        ]
      ]

  -- `follow_once`, given what `watch_all` answers: the entries of the writes after it subscribed.
  -- Those between the bootstrap's scan and then are not among them.
  unfoldable pub follow_once :
      List KvPrefix
      → Codec V
      → (V → Bool)
      → Result (List (Result Entry Text)) Text
      → K
      → Bool × Result (Unit {0}) (ProjectionError X) × K
  follow_once prefixes codec copy_filter watch k = elim watch [
    | err e ↦ (false, err (fabric (Error.kv e)), k)
    | ok entries ↦ follow_entries prefixes codec copy_filter false entries k
  ]

  -- `ReconcileCycle::follow`, over `Display` of the error.
  unfoldable pub follow :
      (ProjectionError X → Text)
      → List KvPrefix
      → Codec V
      → (V → Bool)
      → Result (List (Result Entry Text)) Text
      → K
      → FollowReport × K
  follow to_string prefixes codec copy_filter watch k =
      let (delivered, outcome, after) = follow_once prefixes codec copy_filter watch k in
      (record { progressed = delivered; outcome = map_err to_string outcome }, after)

module _ {ℓ κ μ ν} {S : Type ℓ} {K : Type κ} {V : Type μ} {X : Type ν} (store : Store S)
    (codec : Codec V) (out : ProjectionSink K V X) where
  unfoldable pub bootstrap :
      List KvPrefix → (V → Bool) → S → K → Result (Unit {0}) (ProjectionError X) × K
  bootstrap prefixes copy_filter s k = elim (scan_passing store codec prefixes copy_filter s) [
    | err e ↦ (err (fabric e), k)
    | ok desired ↦ settle out prefixes desired k
  ]
