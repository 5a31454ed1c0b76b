-- ===== src/Outbox/Table/Pending.antt =====
-- How many rows of the table are pending, and where they stand.
use br_rust_common.Base.{
  ℕ, ◌+◌, ◌≤◌, ◌<◌, true, false, Text, bytes, List, [], ◌∷◌, Option, none, some, All, ◌==◌, text_Eq,
  nat_Eq, lt→ltb, if◌then◌else◌, ◌≡◌, refl, arith, inl, inr,
}
use br_rust_common.Outbox.Status.{Transition, as_db_str}
use br_rust_common.Outbox.Table.{OutboxRow, select_pending, apply_transition}
use br_rust_common.Outbox.Table.Laws.{
  IsOrdered, is_pending, select_pending_sound, select_pending-cons, update_row-same,
  apply_transition-first, apply_transition-later,
}

module _ {ℓ} {P : Type ℓ} where
  abbrev pub count_pending : List (OutboxRow P) → ℕ
  count_pending [] = 0
  count_pending (row ∷ rows) =
      let rest = count_pending rows in if is_pending row then rest + 1 else rest

  -- Every pending row stands after the cursor.
  abbrev pub IsPendingAbove : ℕ → List (OutboxRow P) → Type 0
  IsPendingAbove cursor rows = All (λ row. is_pending row ≡ true → cursor < row.id) rows

  pub IsOrdered-IsPendingAbove :
      (lo k : ℕ) (rows : List (OutboxRow P)) → IsOrdered lo rows → k ≤ lo → IsPendingAbove k rows
  IsOrdered-IsPendingAbove lo k [] o h = tt
  IsOrdered-IsPendingAbove lo k (r ∷ rows) (b, o) h =
      (λ p. omega arith, IsOrdered-IsPendingAbove r.id k rows o (omega arith))

  -- The update of the row selected takes one row off the pending ones, and leaves none before it.
  pub apply_transition-drains :
      (lo after : ℕ) (rows : List (OutboxRow P)) (row : OutboxRow P) (t : Transition)
      (e : Option Text) (now : ℕ)
      → IsOrdered lo rows
      → IsPendingAbove after rows
      → select_pending rows after ≡ some row
      → (as_db_str t.status == bytes "PENDING") ≡ false
      → (count_pending (apply_transition rows row.id t e now) + 1 ≡ count_pending rows)
        × IsPendingAbove row.id (apply_transition rows row.id t e now)
  unfolding select_pending
  apply_transition-drains lo after [] row t e now o a h d = cc
  apply_transition-drains lo after (r ∷ rows) row t e now (b, o) (ar, a) h d =
      elim (select_pending-cons after r rows row h) [
        | inl (same, p) ↦
            let (_, _, _, status) = update_row-same t e now r in
            rw (← same, apply_transition-first lo r rows t e now (b, o))
              (
                ground (arith, status),
                (
                  λ q. ground (arith, status),
                  IsOrdered-IsPendingAbove r.id r.id rows o (omega arith),
                ),
              )
        | inr (n, later) ↦
            let (above, _, _) = select_pending_sound r.id after rows row o later in
            let (c, rest) = apply_transition-drains r.id after rows row t e now o a later d in
            let idle : is_pending r ≡ false = ground (arith, ar, lt→ltb after r.id) in
            rw (apply_transition-later row.id r rows t e now above)
              (ground arith, (λ q. ground arith, rest))
      ]

  pub select_pending-none :
      (cursor : ℕ) (rows : List (OutboxRow P))
      → IsPendingAbove cursor rows
      → select_pending rows cursor ≡ none
      → count_pending rows ≡ 0
  unfolding select_pending
  select_pending-none cursor [] a h = refl
  select_pending-none cursor (r ∷ rows) (ar, a) h =
      ground (arith, select_pending-none cursor rows a, ar, lt→ltb cursor r.id)
