-- ===== src/Fabric/Consumer/Run/Laws.antt =====
-- What the loop acknowledges, in which order, and with what.
use br_rust_common.Base.{
  Bool, true, false, Text, List, [], ◌∷◌, ◌++◌, Result, ok, err, All, ◌≡◌, refl, ap, Bool-cases,
  Result-cases, inl, inr, ◌⊎◌, map,
}
use br_rust_common.Fabric.Error
use br_rust_common.Fabric.Error.{FabricError}
use br_rust_common.Fabric.Consumer.Backoff.{Backoff}
use br_rust_common.Fabric.Consumer.Recovery
use br_rust_common.Fabric.Consumer.Recovery.{
  Recovery, RecoverEnd, recovered, gave_up, waiting, recover, note_delivery, should_recover,
}
use br_rust_common.Fabric.Consumer.Run.{
  Frame, SourceNext, closed, failed, delivered, still_running, Effect, handled, acked, poisoned,
  Calls, run, run_inner, ack_kind,
}

abbrev pub delivered_frames : List SourceNext → List Frame
delivered_frames [] = []
delivered_frames (closed ∷ nexts) = delivered_frames nexts
delivered_frames (failed e ∷ nexts) = delivered_frames nexts
delivered_frames (delivered frame ∷ nexts) = frame ∷ delivered_frames nexts

RecoverEnd-cases :
    (r : RecoverEnd) → (r ≡ recovered) ⊎ ((e : FabricError) × (r ≡ gave_up e)) ⊎ (r ≡ waiting)
RecoverEnd-cases recovered = inl refl
RecoverEnd-cases (gave_up e) = inr (inl (e, refl))
RecoverEnd-cases waiting = inr (inr refl)

abbrev pub has_decoded {κ} : {E : Type κ} → Result E Text → Bool
has_decoded (ok e) = true
has_decoded (err d) = false

module _ {ℓ κ} {AckKind : Type ℓ} {E : Type κ} where
  abbrev pub acked_frames : List (Effect AckKind E) → List Frame
  acked_frames [] = []
  acked_frames (handled s e ∷ effects) = acked_frames effects
  acked_frames (acked frame kind ∷ effects) = frame ∷ acked_frames effects
  acked_frames (poisoned e ∷ effects) = acked_frames effects

module _ {ℓ κ μ} {AckKind : Type ℓ} {E : Type κ} {H : Type μ} (calls : Calls AckKind E H) where
  -- A frame whose payload does not decode is acknowledged with `Term`.
  abbrev pub IsTermed : Effect AckKind E → Type ℓ
  IsTermed (handled s e) = Unit
  IsTermed (acked frame kind) =
      (has_decoded (calls.from_slice frame.payload) ≡ true) ⊎ (kind ≡ calls.ack_term)
  IsTermed (poisoned e) = Unit

  run-delivered :
      (frames : List Frame) (recovery : Recovery) (h : H)
      → ((run calls (map delivered frames) [] recovery h).0 ≡ still_running)
        × (acked_frames (run calls (map delivered frames) [] recovery h).1 ≡ frames)
  unfolding run
  run-delivered [] recovery h = (refl, refl)
  run-delivered (frame ∷ frames) recovery h = elim (Result-cases (calls.from_slice frame.payload)) [
    | inl (envelope, e) ↦
        let after = (calls.handler frame.subject envelope h).1 in
        let (p, q) = run-delivered frames (note_delivery recovery) after in
        rw e (p, ap (λ fs. frame ∷ fs) q)
    | inr (detail, e) ↦
        let (p, q) = run-delivered frames recovery h in rw e (p, ap (λ fs. frame ∷ fs) q)
  ]

  run-decoded :
      (frame : Frame) (nexts : List SourceNext) (rebinds : List (Result (Unit {0}) FabricError))
      (recovery : Recovery) (h : H) (envelope : E)
      → calls.from_slice frame.payload ≡ ok envelope
      → (run calls (delivered frame ∷ nexts) rebinds recovery h).1
        ≡ handled frame.subject envelope
          ∷ acked frame (ack_kind calls (calls.handler frame.subject envelope h).0)
          ∷ (run calls nexts rebinds
              (note_delivery recovery)
              (calls.handler frame.subject envelope h).1).1
  unfolding run
  run-decoded frame nexts rebinds recovery h envelope e = rw (run, e) refl

  run-undecoded :
      (frame : Frame) (nexts : List SourceNext) (rebinds : List (Result (Unit {0}) FabricError))
      (recovery : Recovery) (h : H) (detail : Text)
      → calls.from_slice frame.payload ≡ err detail
      → (run calls (delivered frame ∷ nexts) rebinds recovery h).1
        ≡ acked frame calls.ack_term
          ∷ poisoned (Error.decode frame.subject detail)
          ∷ (run calls nexts rebinds recovery h).1
  unfolding run
  run-undecoded frame nexts rebinds recovery h detail e = rw (run, e) refl

  run-acked :
      (nexts : List SourceNext) (rebinds : List (Result (Unit {0}) FabricError))
      (recovery : Recovery) (h : H)
      → (rest : List Frame) × (delivered_frames nexts
          ≡ acked_frames (run calls nexts rebinds recovery h).1 ++ rest)
        × All IsTermed (run calls nexts rebinds recovery h).1
  unfolding run
  run-acked [] rebinds recovery h = ([], refl, tt)
  run-acked (closed ∷ nexts) rebinds recovery h = (delivered_frames nexts, refl, tt)
  run-acked (failed error ∷ nexts) rebinds recovery h = elim (Bool-cases (should_recover error)) [
    | inr n ↦ rw n (delivered_frames nexts, refl, tt)
    | inl y ↦ elim (RecoverEnd-cases (recover rebinds recovery error).0) [
      | inl e ↦
          rw (y, e)
            (run-acked nexts (recover rebinds recovery error).2 (recover rebinds recovery error).1
              h)
      | inr (inl (f, e)) ↦ rw (y, e) (delivered_frames nexts, refl, tt)
      | inr (inr e) ↦ rw (y, e) (delivered_frames nexts, refl, tt)
    ]
  ]
  run-acked (delivered frame ∷ nexts) rebinds recovery h =
      elim (Result-cases (calls.from_slice frame.payload)) [
        | inl (envelope, e) ↦
            let after = (calls.handler frame.subject envelope h).1 in
            let (rest, p, a) = run-acked nexts rebinds (note_delivery recovery) after in
            rw (run-decoded frame nexts rebinds recovery h envelope e)
              (rest, ap (λ fs. frame ∷ fs) p, (tt, (inl (rw e refl), a)))
        | inr (detail, e) ↦
            let (rest, p, a) = run-acked nexts rebinds recovery h in
            rw (run-undecoded frame nexts rebinds recovery h detail e)
              (rest, ap (λ fs. frame ∷ fs) p, (inr refl, (tt, a)))
      ]

-- Whatever the source gives, the frames acknowledged are the first frames delivered, in their
-- order and each once, and one whose payload does not decode is acknowledged with `Term`.
pub run_inner-acked {ℓ κ μ} :
    {AckKind : Type ℓ} {E : Type κ} {H : Type μ} (calls : Calls AckKind E H)
    (nexts : List SourceNext) (rebinds : List (Result (Unit {0}) FabricError)) (backoff : Backoff)
    (h : H)
    → (rest : List Frame) × (delivered_frames nexts
        ≡ acked_frames (run_inner calls nexts rebinds backoff h).1 ++ rest)
      × All (IsTermed calls) (run_inner calls nexts rebinds backoff h).1
unfolding run_inner
run_inner-acked calls nexts rebinds backoff h =
    run-acked calls nexts rebinds (Recovery.new backoff) h

-- If the source never fails and is not closed, the loop goes on, and every frame is
-- acknowledged.
pub run_inner-delivered {ℓ κ μ} :
    {AckKind : Type ℓ} {E : Type κ} {H : Type μ} (calls : Calls AckKind E H) (frames : List Frame)
    (backoff : Backoff) (h : H)
    → ((run_inner calls (map delivered frames) [] backoff h).0 ≡ still_running)
      × (acked_frames (run_inner calls (map delivered frames) [] backoff h).1 ≡ frames)
unfolding run_inner
run_inner-delivered calls frames backoff h = run-delivered calls frames (Recovery.new backoff) h
