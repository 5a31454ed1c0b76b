-- ===== src/Outbox/Table/Fetch.antt =====
-- What the query for one pending row gives, by the row that it selects.
use br_rust_common.Base.{
  ℕ, none, some, List, ok, err, ◌≡◌, inl, inr, arith, Option-cases, Result-cases,
}
use br_rust_common.Fabric.Subject.{EventSubjectParseError, parse_event_subject}
use br_rust_common.Outbox.Table.{
  OutboxRow, PendingOutbox, OutboxStoreError, into_pending, select_pending, fetch_one_pending,
}

module _ {ℓ} {P : Type ℓ} where
  pub into_pending-id :
      (row : OutboxRow P) (found : PendingOutbox P)
      → into_pending row ≡ ok found
      → found.id ≡ row.id
  unfolding into_pending
  into_pending-id row found h = elim (Result-cases (parse_event_subject row.subject)) [
    | inl (c, e) ↦ ground arith
    | inr (x, e) ↦ ground arith
  ]

  pub fetch_one_pending-some :
      (table : List (OutboxRow P)) (after : ℕ) (found : PendingOutbox P)
      → fetch_one_pending table after ≡ ok (some found)
      → (row : OutboxRow P) × (select_pending table after ≡ some row) × (found.id ≡ row.id)
  unfolding fetch_one_pending
  fetch_one_pending-some table after found h = elim (Option-cases (select_pending table after)) [
    | inl e ↦ ground arith
    | inr (row, e) ↦ elim (Result-cases (into_pending row)) [
      | inl (p, q) ↦ (row, e, ground (arith, into_pending-id row p))
      | inr (x, q) ↦ ground arith
    ]
  ]

  pub fetch_one_pending-none :
      (table : List (OutboxRow P)) (after : ℕ)
      → fetch_one_pending table after ≡ ok none
      → select_pending table after ≡ none
  unfolding fetch_one_pending
  fetch_one_pending-none table after h = elim (Option-cases (select_pending table after)) [
    | inl e ↦ e
    | inr (row, e) ↦ elim (Result-cases (into_pending row)) [
      | inl (p, q) ↦ ground arith
      | inr (x, q) ↦ ground arith
    ]
  ]

  pub fetch_one_pending-err :
      (table : List (OutboxRow P)) (after : ℕ) (x : OutboxStoreError)
      → fetch_one_pending table after ≡ err x
      → (row : OutboxRow P) × (e : EventSubjectParseError) × (select_pending table after ≡ some row)
        × (parse_event_subject row.subject ≡ err e)
  unfolding fetch_one_pending into_pending
  fetch_one_pending-err table after x h = elim (Option-cases (select_pending table after)) [
    | inl e ↦ ground arith
    | inr (row, e) ↦ elim (Result-cases (parse_event_subject row.subject)) [
      | inl (p, q) ↦ ground arith
      | inr (y, q) ↦ (row, y, e, q)
    ]
  ]
