-- ===== src/Postgres/Retry/Laws.antt =====
-- crates/br-util-postgres/src/catalog_retry.rs: how often it tries, and what it answers.
use br_rust_common.Base.{
  ℕ, zero, suc, ◌+◌, ◌*◌, ◌<◌, true, false, Text, List, [], ◌∷◌, ◌++◌, Option, some, Result, ok,
  err, ◌≡◌, refl, arith, inl, inr, Result-cases, Bool-cases,
}
use br_rust_common.Postgres.Role.{PostgresError, db}
use br_rust_common.Postgres.Retry.{
  max_attempts, backoff_step, SqlxError, database, other, is_concurrent_catalog_ddl, is_retried,
  Run, retry_from, retry_concurrent_catalog_ddl,
}

-- The delays after the first `n` attempts: 25 ms, 50 ms, and so on.
unfoldable pub delays : ℕ → List ℕ
delays zero = []
delays (suc n) = delays n ++ backoff_step * (suc n) ∷ []

module _ {ℓ} {S : Type ℓ} (attempt : S → Result (Unit {0}) SqlxError × S) where
  -- So many attempts, one after the other, failed in a way that is tried again.
  pub data Failed : ℕ → S → S → Type ℓ where
    first : (s : S) → Failed 0 s s
    again :
        (n : ℕ) (s t : S) (code : Option Text)
        → Failed n s t
        → (attempt t).0 ≡ err (database code)
        → is_concurrent_catalog_ddl code ≡ true
        → Failed (suc n) s (attempt t).1

  -- How a last attempt, the one after `n`, ends the loop.
  pub data Ends (n : ℕ) (t : S) : Result (Unit {0}) (PostgresError SqlxError) → Type ℓ where
    succeeds : (attempt t).0 ≡ ok tt → Ends n t (ok tt)
    fails :
        (e : SqlxError)
        → (attempt t).0 ≡ err e
        → is_retried (suc n) e ≡ false
        → Ends n t (err (db e))

  -- What a run is: retried failures, and an attempt that ends it, the sixth at the latest.
  pub record IsRun (s : S) (run : Run S) : Type ℓ where
    pub failed : ℕ
    pub before : S
    pub bound : failed < max_attempts
    pub failures : Failed failed s before
    pub last : Ends failed before run.result
    pub state : run.state ≡ (attempt before).1
    pub attempts : run.attempts ≡ suc failed
    pub slept : run.slept ≡ delays failed

  retried_database :
      (n : ℕ) (e : SqlxError)
      → is_retried (suc n) e ≡ true
      → (code : Option Text) × (e ≡ database code)
        × (is_concurrent_catalog_ddl code ≡ true)
        × (suc n < max_attempts)
  retried_database n (database code) h = (code, refl, ground (arith, h), ground (arith, h))
  retried_database n (other text) h = ground (arith, h)

  retry_from_total :
      (fuel n : ℕ) (s t : S)
      → fuel + n ≡ max_attempts
      → n < max_attempts
      → Failed n s t
      → (run : Run S) × (retry_from attempt fuel n (delays n) t ≡ some run) × IsRun s run
  unfolding retry_from delays
  retry_from_total zero n s t f b h = ground (arith, f, b)
  retry_from_total (suc fuel) n s t f b h = elim (Result-cases (attempt t).0) [
    | inl (u, r) ↦ (
      record { result = ok tt; state = (attempt t).1; attempts = suc n; slept = delays n },
      rw (r, retry_from) refl,
      record {
        failed = n;
        before = t;
        bound = b;
        failures = h;
        last = succeeds r;
        state = refl;
        attempts = refl;
        slept = refl;
      },
    )
    | inr (e, r) ↦ elim (Bool-cases (is_retried (suc n) e)) [
      | inr w ↦ (
        record { result = err (db e); state = (attempt t).1; attempts = suc n; slept = delays n },
        rw (r, w, retry_from) refl,
        record {
          failed = n;
          before = t;
          bound = b;
          failures = h;
          last = fails e r w;
          state = refl;
          attempts = refl;
          slept = refl;
        },
      )
      | inl w ↦
          let (code, d, c, l) = retried_database n e w in
          let (run, q, i) =
            retry_from_total fuel (suc n) s (attempt t).1 (omega (arith, f)) (omega (arith, l))
              (again n s t code h (rw d at r) c) in
          (run, rw (r, w, retry_from) q, i)
    ]
  ]

  -- The loop always ends: after at most six attempts, all of which but the last failed because
  -- another session changed the catalog, it answers what the last one does, having slept 25 ms, 50
  -- ms and so on between them. The last one succeeds, fails in another way, or is the sixth.
  pub retry_concurrent_catalog_ddl_total :
      (s : S) → (run : Run S) × (retry_concurrent_catalog_ddl attempt s ≡ some run) × IsRun s run
  unfolding retry_concurrent_catalog_ddl delays
  retry_concurrent_catalog_ddl_total s =
      retry_from_total max_attempts 0 s s refl (omega arith) (first s)
