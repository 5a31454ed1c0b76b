-- ===== src/Directory/Health/Worst.antt =====
-- When the composed health of the streams is `Healthy`.
use br_rust_common.Base.{
  Bool, true, false, List, [], ◌∷◌, Option, none, some, any, all, if◌then◌else◌, ◌≡◌, refl, sym,
  ◌∙◌, subst, inl, inr, All, Bool-cases, arith,
}
use br_rust_common.Fabric.Kv.Supervisor.{WatchHealth, healthy, degraded}
use br_rust_common.Directory.Health.{
  DirectoryStream, users, groups, service_accounts, stream_eq, StreamMap, present, slots, values,
  is_healthy, is_empty, worst_of,
}

abbrev pub is_active : List DirectoryStream → DirectoryStream → Bool
is_active active s = any (λ t. stream_eq t s) active

stream_eq_refl : (s : DirectoryStream) → stream_eq s s ≡ true
stream_eq_refl users = refl
stream_eq_refl groups = refl
stream_eq_refl service_accounts = refl

stream_eq_sound : (s t : DirectoryStream) → stream_eq s t ≡ true → s ≡ t
stream_eq_sound users users _ = refl
stream_eq_sound users groups p = ground (arith, p)
stream_eq_sound users service_accounts p = ground (arith, p)
stream_eq_sound groups users p = ground (arith, p)
stream_eq_sound groups groups _ = refl
stream_eq_sound groups service_accounts p = ground (arith, p)
stream_eq_sound service_accounts users p = ground (arith, p)
stream_eq_sound service_accounts groups p = ground (arith, p)
stream_eq_sound service_accounts service_accounts _ = refl

module _ (P : DirectoryStream → Type 0) where
  active-All :
      (active : List DirectoryStream)
      → ((s : DirectoryStream) → is_active active s ≡ true → P s)
      → All P active
  active-All [] f = tt
  active-All (t ∷ active) f =
      (f t (rw (stream_eq_refl t) refl), active-All active (λ s p. f s (ground (arith, p))))

  All-active :
      (active : List DirectoryStream)
      → All P active
      → (s : DirectoryStream) → is_active active s ≡ true
      → P s
  All-active [] _ s p = ground (arith, p)
  All-active (t ∷ active) (px, pxs) s p = elim (Bool-cases (stream_eq t s)) [
    | inl e ↦ subst P (stream_eq_sound t s e) px
    | inr e ↦ All-active active pxs s (ground (arith, p, e))
  ]

-- What `worst_of` reads of the slots.
present_sound :
    (l : List (Option WatchHealth))
    → all is_healthy (present l) ≡ true
    → All (λ o. ¬ (o ≡ some degraded)) l
present_sound [] p = tt
present_sound (none ∷ l) p = ((λ e. ground (arith, e)), present_sound l p)
present_sound (some healthy ∷ l) p = ((λ e. ground (arith, e)), present_sound l p)
present_sound (some degraded ∷ l) p = ground (arith, p)

present_complete :
    (l : List (Option WatchHealth))
    → All (λ o. ¬ (o ≡ some degraded)) l
    → all is_healthy (present l) ≡ true
present_complete [] _ = refl
present_complete (none ∷ l) (_, f) = present_complete l f
present_complete (some healthy ∷ l) (_, f) = present_complete l f
present_complete (some degraded ∷ l) (f, _) = elim (f refl) [ ]

slots-All :
    (P : Option WatchHealth → Type 0) (m : StreamMap)
    → All P (slots m)
    → (s : DirectoryStream) → P (m s)
slots-All P m (p, _) users = p
slots-All P m (_, (p, _)) groups = p
slots-All P m (_, (_, (p, _))) service_accounts = p

All-slots :
    (P : Option WatchHealth → Type 0) (m : StreamMap)
    → ((s : DirectoryStream) → P (m s))
    → All P (slots m)
All-slots P m f = (f users, (f groups, (f service_accounts, tt)))

worst_of-healthy :
    (m : StreamMap)
    → worst_of m ≡ healthy
    → (is_empty (values m) ≡ false) × (all is_healthy (values m) ≡ true)
unfolding worst_of
worst_of-healthy m p = elim (Bool-cases (is_empty (values m))) [
  | inl e ↦ ground (arith, p, e)
  | inr e ↦ elim (Bool-cases (all is_healthy (values m))) [
    | inl f ↦ (e, f)
    | inr f ↦ ground (arith, p, e, f)
  ]
]

healthy-worst_of :
    (m : StreamMap)
    → is_empty (values m) ≡ false
    → all is_healthy (values m) ≡ true
    → worst_of m ≡ healthy
unfolding worst_of
healthy-worst_of m p q = rw (p, q) refl

-- A slot that is filled makes the list of the values longer than none.
present-filled :
    (l : List (Option WatchHealth)) → All (λ o. o ≡ none) l → is_empty (present l) ≡ true
present-filled [] _ = refl
present-filled (none ∷ l) (_, p) = present-filled l p
present-filled (some _ ∷ l) (p, _) = ground (arith, p)

present-empty :
    (l : List (Option WatchHealth)) → is_empty (present l) ≡ true → All (λ o. o ≡ none) l
present-empty [] _ = tt
present-empty (none ∷ l) p = (refl, present-empty l p)
present-empty (some _ ∷ l) p = ground (arith, p)

filled-healthy :
    (h : WatchHealth) (o : Option WatchHealth) → o ≡ some h → ¬ (o ≡ some degraded) → h ≡ healthy
filled-healthy healthy o p q = refl
filled-healthy degraded o p q = elim (q p) [ ]

some-none : (h : WatchHealth) (o : Option WatchHealth) → o ≡ some h → ¬ (o ≡ none)
some-none h o p q = ground (arith, p, q)

healthy-degraded : ¬ (some healthy ≡ some degraded)
healthy-degraded e = ground (arith, e)

an_active :
    (active : List DirectoryStream)
    → ¬ (active ≡ [])
    → (s : DirectoryStream) × is_active active s ≡ true
an_active [] p = elim (p refl) [ ]
an_active (s ∷ _) p = (s, rw (stream_eq_refl s) refl)

module _ (active : List DirectoryStream) (l : DirectoryStream → WatchHealth) (m : StreamMap)
    (slot : (s : DirectoryStream) → m s ≡ (if is_active active s then some (l s) else none)) where
  pub worst_of_sound : worst_of m ≡ healthy → (¬ (active ≡ [])) × All (λ s. l s ≡ healthy) active
  worst_of_sound p =
      let (e, f) = worst_of-healthy m p in
      (
        (λ q. ground (
          arith,
          e,
          present-filled (slots m) (All-slots (λ o. o ≡ none) m (λ s. slot s ∙ rw q refl)),
        )),
        active-All (λ s. l s ≡ healthy) active
            (λ s a.
              filled-healthy (l s) (m s) (slot s ∙ rw a refl)
                (slots-All (λ o. ¬ (o ≡ some degraded)) m (present_sound (slots m) f) s)),
      )

  pub worst_of_complete : ¬ (active ≡ []) → All (λ s. l s ≡ healthy) active → worst_of m ≡ healthy
  worst_of_complete p q =
      healthy-worst_of m
        (elim (Bool-cases (is_empty (values m))) [
          | inl e ↦
              let (s, a) = an_active active p in
              elim (some-none (l s) (m s) (slot s ∙ rw a refl)
                (slots-All (λ o. o ≡ none) m (present-empty (slots m) e) s)) [ ]
          | inr e ↦ e
        ])
        (present_complete (slots m) (
          All-slots (λ o. ¬ (o ≡ some degraded)) m
            (λ s d. elim (Bool-cases (is_active active s)) [
              | inl a ↦
                  healthy-degraded
                    (sym (slot s ∙ rw (a, All-active (λ t. l t ≡ healthy) active q s a) refl) ∙ d)
              | inr a ↦ some-none degraded (m s) d (slot s ∙ rw a refl)
            ])))
