-- ===== src/App/Hydration/Laws.antt =====
-- crates/br-identity-app/src/hydration.rs: the numbers of rows, services and scopes.
use br_rust_common.Base.{
  ℕ, ◌+◌, Text, List, [], ◌∷◌, some, ok, map, length, ◌==◌, length-append, ◌≡◌, refl, arith,
  Bool-cases, Option-cases, Result-cases, inl, inr,
}
use br_rust_common.Scope.ServiceKey.{ServiceKey, service_key_Eq}
use br_rust_common.Scope.ScopeKey.{ScopeKey}
use br_rust_common.Scope.Spec.{ScopeSpec, ServiceManifest}
use br_rust_common.App.Hydration.{
  ServiceRow, ScopeRow, parse_service_key, parse_scope_key, Entry, read_services, push_to,
  without_key, read_scopes, build_hydration_input,
}

-- The texts of the keys of the services, in order.
abbrev pub entry_keys : List Entry → List Text
entry_keys [] = []
entry_keys ((k, manifest, scopes) ∷ services) = k.text ∷ entry_keys services

abbrev pub count_scopes : List Entry → ℕ
count_scopes [] = 0
count_scopes ((k, manifest, scopes) ∷ services) = length scopes + count_scopes services

push_to-count :
    (services after : List Entry) (owner : ServiceKey) (spec : ScopeSpec)
    → push_to services owner spec ≡ some after
    → (count_scopes after ≡ count_scopes services + 1) × (length after ≡ length services)
unfolding push_to
push_to-count [] after owner spec h = cc
push_to-count ((k, manifest, scopes) ∷ services) after owner spec h =
    elim (Bool-cases (k == owner)) [
      | inl e ↦ ground (arith, length-append scopes (spec ∷ []))
      | inr e ↦ elim (Option-cases (push_to services owner spec)) [
        | inl n ↦ ground arith
        | inr (rest, p) ↦ ground (arith, push_to-count services rest owner spec p)
      ]
    ]

read_services-count :
    (rows : List ServiceRow) (services : List Entry)
    → read_services rows ≡ ok services
    → (count_scopes services ≡ 0) × (length services ≡ length rows)
unfolding read_services
read_services-count [] services h = ground arith
read_services-count (row ∷ rows) services h =
    elim (Result-cases (parse_service_key row.service_key)) [
      | inr (e, p) ↦ ground arith
      | inl (k, p) ↦ elim (Result-cases (read_services rows)) [
        | inr (e, q) ↦ ground arith
        | inl (rest, q) ↦ ground (arith, read_services-count rows rest q)
      ]
    ]

row_spec : ScopeRow → ScopeKey → ScopeSpec
row_spec row k = record {
  key = k;
  label_key = row.label_key;
  description_key = row.description_key;
  platform_only = row.platform_only;
}

-- The stages of one turn of the second loop that succeeds.
read_scopes-cons :
    (services after : List Entry) (row : ScopeRow) (rows : List ScopeRow)
    → read_scopes services (row ∷ rows) ≡ ok after
    → (k : ScopeKey) × (owner : ServiceKey) × (next : List Entry) × (push_to services owner
          (row_spec row k)
        ≡ some next)
      × (read_scopes next rows ≡ ok after)
unfolding read_scopes row_spec
read_scopes-cons services after row rows h = elim (Result-cases (parse_scope_key row.scope_key)) [
  | inr (e, p) ↦ ground arith
  | inl (k, p) ↦ elim (Result-cases (parse_service_key row.owning_service)) [
    | inr (e, q) ↦ ground arith
    | inl (owner, q) ↦ elim (Option-cases (push_to services owner (row_spec row k))) [
      | inl n ↦ ground arith
      | inr (next, s) ↦ (k, owner, next, s, ground arith)
    ]
  ]
]

read_scopes-count :
    (services after : List Entry) (rows : List ScopeRow)
    → read_scopes services rows ≡ ok after
    → (count_scopes after ≡ count_scopes services + length rows) × (length after ≡ length services)
unfolding read_scopes
read_scopes-count services after [] h = ground arith
read_scopes-count services after (row ∷ rows) h =
    let (k, owner, next, p, q) = read_scopes-cons services after row rows h in
    ground (
      arith,
      push_to-count services next owner (row_spec row k) p,
      read_scopes-count next after rows q,
    )

abbrev pub count_stored : List (ServiceManifest × List ScopeSpec) → ℕ
count_stored [] = 0
count_stored ((manifest, scopes) ∷ services) = length scopes + count_stored services

count_stored-map :
    (services : List Entry)
    → (count_stored (map without_key services) ≡ count_scopes services)
      × (length (map without_key services) ≡ length services)
count_stored-map [] = (refl, refl)
count_stored-map ((k, manifest, scopes) ∷ services) = ground (arith, count_stored-map services)

-- If the rows are accepted, each row of a service gives one service and each row of a scope one
-- scope: none is dropped and none is doubled.
pub build_hydration_input-count :
    (service_rows : List ServiceRow) (scope_rows : List ScopeRow)
    (services : List (ServiceManifest × List ScopeSpec))
    → build_hydration_input service_rows scope_rows ≡ ok services
    → (length services ≡ length service_rows) × (count_stored services ≡ length scope_rows)
unfolding build_hydration_input
build_hydration_input-count service_rows scope_rows services h =
    elim (Result-cases (read_services service_rows)) [
      | inr (e, p) ↦ ground arith
      | inl (entries, p) ↦ elim (Result-cases (read_scopes entries scope_rows)) [
        | inr (e, q) ↦ ground arith
        | inl (after, q) ↦
            let s : map without_key after ≡ services = ground arith in
            rw (← s) (
              ground (
                arith,
                count_stored-map after,
                read_scopes-count entries after scope_rows q,
                read_services-count service_rows entries p,
              ))
      ]
    ]
