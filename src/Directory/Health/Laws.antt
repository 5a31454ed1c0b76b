-- ===== src/Directory/Health/Laws.antt =====
-- The health of a projector, over what its tasks do after an activation, in any order.
use br_rust_common.Base.{
  ℕ, Bool, true, false, List, [], ◌∷◌, Option, none, some, nat_eq, if◌then◌else◌, ◌≡◌, refl, sym,
  ◌∙◌, ◌+◌, ◌%◌, ◌^◌, All, ◌↔◌,
}
use br_rust_common.Fabric.Kv.Supervisor.{WatchHealth, healthy, degraded}
use br_rust_common.Fabric.Kv.Supervisor.Laws.{set_health-eq}
use br_rust_common.Directory.Health.Worst.{is_active, worst_of_sound, worst_of_complete}
use br_rust_common.Directory.Health.{
  DirectoryStream, stream_eq, ProjectorHealth, worst_of, lock, send, activate, write_slot,
  set_stream, deactivate,
}

-- A step of some task: the part under the lock of an operation by which a stream reports its health
-- or a token is dropped, or a send of what an operation composed at any time before.
pub data Event : Type 0 where
  turned : DirectoryStream → WatchHealth → Event
  dropped : ℕ → Event
  sent : WatchHealth → Event

-- The projector, with what the operation that held the lock last composed.
abbrev pub run_event : ProjectorHealth × WatchHealth → Event → ProjectorHealth × WatchHealth
run_event (h, _) (turned stream health) = lock (set_stream stream health) h
run_event (h, _) (dropped generation) = lock (deactivate generation) h
run_event (h, composed) (sent earlier) = (send earlier h, composed)

abbrev pub run_events : ProjectorHealth × WatchHealth → List Event → ProjectorHealth × WatchHealth
run_events h [] = h
run_events h (event ∷ events) = run_events (run_event h event) events

-- The health that a stream reported last, from the one it starts with.
abbrev pub latest : WatchHealth → List Event → DirectoryStream → WatchHealth
latest health [] s = health
latest health (turned stream reported ∷ events) s =
    latest (if stream_eq stream s then reported else health) events s
latest health (dropped _ ∷ events) s = latest health events s
latest health (sent _ ∷ events) s = latest health events s

-- No token of the generation is dropped.
abbrev pub IsKept : ℕ → Event → Type 0
IsKept generation (turned _ _) = Unit
IsKept generation (dropped token) = nat_eq generation token ≡ false
IsKept generation (sent _) = Unit

-- A state of the activation: `l` is the health of each of its streams.
record Holds (active : List DirectoryStream) (generation : ℕ) (l : DirectoryStream → WatchHealth)
    (h : ProjectorHealth × WatchHealth) : Type 0 where
  same : h.0.activation.generation ≡ generation
  slot :
      (s : DirectoryStream)
      → h.0.activation.streams s ≡ (if is_active active s then some (l s) else none)
  composed : h.1 ≡ worst_of h.0.activation.streams

write_slot-if :
    (b c : Bool) (old health : WatchHealth) (slot : Option WatchHealth)
    → slot ≡ (if b then some old else none)
    → (if c then write_slot slot health else slot)
      ≡ (if b then some (if c then health else old) else none)
unfolding write_slot
write_slot-if true true old reported slot p = rw p refl
write_slot-if true false old reported slot p = p
write_slot-if false true old reported slot p = rw p refl
write_slot-if false false old reported slot p = p

run_events-Holds :
    (active : List DirectoryStream) (generation : ℕ) (l : DirectoryStream → WatchHealth)
    (h : ProjectorHealth) (composed : WatchHealth) (events : List Event)
    → Holds active generation l (h, composed)
    → All (IsKept generation) events
    → Holds active generation (λ s. latest (l s) events s) (run_events (h, composed) events)
unfolding lock send set_stream deactivate
run_events-Holds active generation l h composed [] holds _ = holds
run_events-Holds active generation l h composed (turned stream health ∷ events) holds (_, kept) =
    let (after, now) = lock (set_stream stream health) h in
    run_events-Holds active generation (λ s. if stream_eq stream s then health else l s) after now
      events
      (record {
        same = holds.same;
        slot = λ s.
            write_slot-if (is_active active s) (stream_eq stream s) (l s) health
              (h.activation.streams s) (holds.slot s);
        composed = refl;
      })
      kept
run_events-Holds active generation l h composed (dropped token ∷ events) holds (k, kept) =
    let (after, now) = lock (deactivate token) h in
    run_events-Holds active generation l after now events
      (record { same = holds.same; slot = λ s. rw (holds.same, k) (holds.slot s); composed = refl })
      kept
run_events-Holds active generation l h composed (sent earlier ∷ events) holds (_, kept) =
    run_events-Holds active generation l (send earlier h) composed events
      (record { same = holds.same; slot = holds.slot; composed = holds.composed }) kept

-- After the lock of an activation the tasks take their steps in any order, and no token of that
-- activation is dropped. Once what the operation that held the lock last composed is sent after all
-- other sends, the health is `Healthy` exactly when some stream was activated and each stream that
-- was activated reported `Healthy` last. What the other streams report, the tokens of other
-- activations and the sends that came before, whatever they send, change nothing.
pub activate-healthy :
    (h : ProjectorHealth) (active : List DirectoryStream) (events : List Event)
    → All (IsKept ((h.activation.generation + 1) % 2 ^ 64)) events
    → ((let (end, composed) = run_events (lock (activate active) h) events in
            (send composed end).current)
          ≡ healthy
        ↔ (¬ (active ≡ [])) × All (λ s. latest degraded events s ≡ healthy) active)
unfolding activate lock send
activate-healthy h active events kept =
    let g = (h.activation.generation + 1) % 2 ^ 64 in
    let (opened, first) = lock (activate active) h in
    let (end, composed) = run_events (opened, first) events in
    let streams = end.activation.streams in
    let holds =
      run_events-Holds active g (λ _. degraded) opened first events
        (record { same = refl; slot = λ s. refl; composed = refl }) kept in
    let l : DirectoryStream → WatchHealth = λ s. latest degraded events s in
    let shown = set_health-eq end.current composed ∙ holds.composed in
    (
      (λ p. worst_of_sound active l streams holds.slot (sym shown ∙ p)),
      (λ p. shown ∙ worst_of_complete active l streams holds.slot p.0 p.1),
    )
