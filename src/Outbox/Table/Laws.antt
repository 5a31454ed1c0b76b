-- ===== src/Outbox/Table/Laws.antt =====
-- The query and the update of the outbox table, on a table in the order of its ids.
use br_rust_common.Base.{
  ℕ, ◌≤◌, ◌<◌, Bool, true, false, Text, bytes, List, [], ◌∷◌, Option, some, ◌==◌, text_Eq, nat_Eq,
  nat_eq_iff, ◌≡◌, refl, arith, Bool-cases, inl, inr, ◌∙◌, ◌⊎◌,
}
use br_rust_common.Outbox.Status.{Transition, as_db_str}
use br_rust_common.Outbox.Table.{
  OutboxRow, is_pending_after, select_pending, update_row, apply_transition,
}

module _ {ℓ} {P : Type ℓ} where
  -- The ids of the rows ascend, from above `lo`.
  abbrev pub IsOrdered : ℕ → List (OutboxRow P) → Type 0
  IsOrdered lo [] = Unit
  IsOrdered lo (row ∷ rows) = lo < row.id × IsOrdered row.id rows

  abbrev pub is_pending : OutboxRow P → Bool
  is_pending row = row.status == bytes "PENDING"

  -- What a step of the relay may do to a row: one that is not pending stays as it is.
  abbrev pub IsKept : OutboxRow P → OutboxRow P → Type ℓ
  IsKept row row' =
      (row'.id ≡ row.id)
      × (row'.subject ≡ row.subject)
      × (row'.payload ≡ row.payload)
      × ((is_pending row ≡ true) ⊎ (row' ≡ row))

  pub data IsLaterTable : List (OutboxRow P) → List (OutboxRow P) → Type ℓ where
    none_left : IsLaterTable [] []
    row_kept :
        {row row' : OutboxRow P} {rows rows' : List (OutboxRow P)}
        → IsKept row row'
        → IsLaterTable rows rows'
        → IsLaterTable (row ∷ rows) (row' ∷ rows')

  pub select_pending_sound :
      (lo after : ℕ) (rows : List (OutboxRow P)) (row : OutboxRow P)
      → IsOrdered lo rows
      → select_pending rows after ≡ some row
      → lo < row.id × after < row.id × (is_pending row ≡ true)
  unfolding select_pending
  select_pending_sound lo after [] row o h = cc
  select_pending_sound lo after (r ∷ rows) row (b, o) h =
      ground (arith, select_pending_sound r.id after rows row o)

  update_row-other :
      (k : ℕ) (t : Transition) (e : Option Text) (now : ℕ) (row : OutboxRow P)
      → k < row.id
      → update_row k t e now row ≡ row
  unfolding update_row
  update_row-other k t e now row h = ground (arith, nat_eq_iff row.id k)

  pub update_row-same :
      (t : Transition) (e : Option Text) (now : ℕ) (row : OutboxRow P)
      → ((update_row row.id t e now row).id ≡ row.id)
        × ((update_row row.id t e now row).subject ≡ row.subject)
        × ((update_row row.id t e now row).payload ≡ row.payload)
        × ((update_row row.id t e now row).status ≡ as_db_str t.status)
  unfolding update_row
  update_row-same t e now row = ground (arith, nat_eq_iff row.id row.id)

  apply_transition-above :
      (lo k : ℕ) (t : Transition) (e : Option Text) (now : ℕ) (rows : List (OutboxRow P))
      → IsOrdered lo rows
      → k ≤ lo
      → apply_transition rows k t e now ≡ rows
  unfolding apply_transition
  apply_transition-above lo k t e now [] o h = refl
  apply_transition-above lo k t e now (row ∷ rows) (b, o) h =
      ground (arith, update_row-other k t e now row, apply_transition-above row.id k t e now rows o)

  -- To split on which row is selected.
  pub select_pending-cons :
      (after : ℕ) (r : OutboxRow P) (rows : List (OutboxRow P)) (row : OutboxRow P)
      → select_pending (r ∷ rows) after ≡ some row
      → ((r ≡ row) × (is_pending r ≡ true))
        ⊎ ((is_pending_after after r ≡ false) × (select_pending rows after ≡ some row))
  unfolding select_pending
  select_pending-cons after r rows row h = elim (Bool-cases (is_pending_after after r)) [
    | inl e ↦ inl (ground arith)
    | inr e ↦ inr (ground arith)
  ]

  apply_transition-cons :
      (r : OutboxRow P) (rows : List (OutboxRow P)) (k : ℕ) (t : Transition) (e : Option Text)
      (now : ℕ)
      → apply_transition (r ∷ rows) k t e now
        ≡ update_row k t e now r ∷ apply_transition rows k t e now
  unfolding apply_transition
  apply_transition-cons r rows k t e now = refl

  IsKept-refl : (row : OutboxRow P) → IsKept row row
  IsKept-refl row = (refl, refl, refl, inr refl)

  IsKept-same :
      (a b c : OutboxRow P)
      → (is_pending a ≡ true) ⊎ (b ≡ a)
      → (is_pending b ≡ true) ⊎ (c ≡ b)
      → (is_pending a ≡ true) ⊎ (c ≡ a)
  IsKept-same a b c (inl p) k = inl p
  IsKept-same a b c (inr e) (inl p) = inl (rw (← e) p)
  IsKept-same a b c (inr e) (inr f) = inr (f ∙ e)

  IsKept-trans : (a b c : OutboxRow P) → IsKept a b → IsKept b c → IsKept a c
  IsKept-trans a b c (i, s, p, k) (i', s', p', k') =
      (ground arith, ground arith, ground arith, IsKept-same a b c k k')

  pub IsLaterTable-refl : (rows : List (OutboxRow P)) → IsLaterTable rows rows
  IsLaterTable-refl [] = none_left
  IsLaterTable-refl (row ∷ rows) = row_kept (IsKept-refl row) (IsLaterTable-refl rows)

  pub IsLaterTable-trans :
      {a b c : List (OutboxRow P)} → IsLaterTable a b → IsLaterTable b c → IsLaterTable a c
  IsLaterTable-trans none_left none_left = none_left
  IsLaterTable-trans (row_kept k l) (row_kept k' l') =
      row_kept (IsKept-trans _ _ _ k k') (IsLaterTable-trans l l')

  update_row-IsKept :
      (t : Transition) (e : Option Text) (now : ℕ) (row : OutboxRow P)
      → is_pending row ≡ true
      → IsKept row (update_row row.id t e now row)
  update_row-IsKept t e now row h =
      let (i, s, p, _) = update_row-same t e now row in (i, s, p, inl h)

  update_row-id :
      (k : ℕ) (t : Transition) (e : Option Text) (now : ℕ) (row : OutboxRow P)
      → (update_row k t e now row).id ≡ row.id
  unfolding update_row
  update_row-id k t e now row = ground arith

  pub apply_transition-IsOrdered :
      (lo k : ℕ) (rows : List (OutboxRow P)) (t : Transition) (e : Option Text) (now : ℕ)
      → IsOrdered lo rows
      → IsOrdered lo (apply_transition rows k t e now)
  unfolding apply_transition
  apply_transition-IsOrdered lo k [] t e now o = tt
  apply_transition-IsOrdered lo k (r ∷ rows) t e now (b, o) =
      rw (update_row-id k t e now r) (b, apply_transition-IsOrdered r.id k rows t e now o)

  -- The update of the row selected: its place in the table, and the rows around it.
  pub apply_transition-first :
      (lo : ℕ) (r : OutboxRow P) (rows : List (OutboxRow P)) (t : Transition) (e : Option Text)
      (now : ℕ)
      → IsOrdered lo (r ∷ rows)
      → apply_transition (r ∷ rows) r.id t e now ≡ update_row r.id t e now r ∷ rows
  apply_transition-first lo r rows t e now (b, o) = ground (
    arith,
    apply_transition-cons r rows r.id t e now,
    apply_transition-above r.id r.id t e now rows o,
  )

  pub apply_transition-later :
      (k : ℕ) (r : OutboxRow P) (rows : List (OutboxRow P)) (t : Transition) (e : Option Text)
      (now : ℕ)
      → r.id < k
      → apply_transition (r ∷ rows) k t e now ≡ r ∷ apply_transition rows k t e now
  unfolding apply_transition update_row
  apply_transition-later k r rows t e now h = ground (arith, nat_eq_iff r.id k)

  -- The update of the row selected changes no other row and no row that is not pending.
  pub apply_transition-IsLaterTable :
      (lo after : ℕ) (rows : List (OutboxRow P)) (row : OutboxRow P) (t : Transition)
      (e : Option Text) (now : ℕ)
      → IsOrdered lo rows
      → select_pending rows after ≡ some row
      → IsLaterTable rows (apply_transition rows row.id t e now)
  unfolding select_pending
  apply_transition-IsLaterTable lo after [] row t e now o h = cc
  apply_transition-IsLaterTable lo after (r ∷ rows) row t e now (b, o) h =
      elim (select_pending-cons after r rows row h) [
        | inl (same, p) ↦
            rw (← same, apply_transition-first lo r rows t e now (b, o))
              (row_kept (update_row-IsKept t e now r p) (IsLaterTable-refl rows))
        | inr (n, later) ↦
            let (above, _, _) = select_pending_sound r.id after rows row o later in
            rw (apply_transition-later row.id r rows t e now above) (
              row_kept (IsKept-refl r)
                (apply_transition-IsLaterTable r.id after rows row t e now o later))
      ]
