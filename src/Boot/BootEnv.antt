-- ===== src/Boot/BootEnv.antt =====
-- crates/br-util-boot/src/boot_env.rs: the boot environment, with every problem at once. The parsers
-- of the standard library's `IpAddr`, of ports and of URLs are arguments.
use br_rust_common.Base.{
  ℕ, Text, bytes, List, [], ◌∷◌, ◌++◌, Option, none, some, Result, ok, err, ◌≡◌, ◌≢◌, refl,
  append-nil, ◌∙◌, sym, ap, arith,
}
use br_rust_common.Boot.Environment
use br_rust_common.Boot.Environment.{InvalidValue, not_port, not_host}
use br_rust_common.Boot.Url.{UrlParser, DatabaseUrl, NatsUrl, parse_database_url, parse_nats_url}
use br_rust_common.Boot.Reader.{
  VarError, VarProblem, missing, required, optional, judge, noted, required-judge, optional-judge,
}

pub record BootEnv {ℓ κ} (U : Type ℓ) (H : Type κ) : Type (ℓ ⊔ κ) where
  pub environment : Environment.Environment
  pub host : H
  pub port : ℕ
  pub database_url : DatabaseUrl U
  pub nats_url : NatsUrl U

-- `raw.parse()` with its error replaced.
abbrev parse_or {κ} : {A : Type κ} → (Text → Option A) → InvalidValue → Text → Result A InvalidValue
parse_or parse reason raw = elim (parse raw) [ some a ↦ ok a | none ↦ err reason ]

unfoldable pub parse_port : (Text → Option ℕ) → Text → Result ℕ InvalidValue
parse_port parse raw = parse_or parse (not_port raw) raw

unfoldable pub parse_host {κ} : {H : Type κ} → (Text → Option H) → Text → Result H InvalidValue
parse_host parse raw = parse_or parse (not_host raw) raw

-- The `match` on the five values.
abbrev pub together {ℓ κ} :
    {U : Type ℓ} {H : Type κ}
    → Option Environment.Environment
    → Option H
    → Option ℕ
    → Option (DatabaseUrl U)
    → Option (NatsUrl U)
    → List VarProblem
    → Result (BootEnv U H) (List VarProblem)
together (some e) (some h) (some p) (some d) (some n) problems =
    ok (record { environment = e; host = h; port = p; database_url = d; nats_url = n })
together _ _ _ _ _ problems = err problems

module _ {ℓ κ} {U : Type ℓ} {H : Type κ} (url : UrlParser U) (host_parser : Text → Option H)
    (port_parser : Text → Option ℕ) (default_host : H)
    (lookup_var : Text → Result Text VarError) where
  unfoldable pub from_lookup : Result (BootEnv U H) (List VarProblem)
  from_lookup =
      let (e, a) = required lookup_var Environment.from_str (bytes "ENVIRONMENT") [] in
      let (h, b) = optional lookup_var (parse_host host_parser) (bytes "HOST") default_host a in
      let (p, c) = required lookup_var (parse_port port_parser) (bytes "PORT") b in
      let (d, f) = required lookup_var (parse_database_url url) (bytes "DATABASE_URL") c in
      let (n, g) = required lookup_var (parse_nats_url url) (bytes "NATS_URL") f in
      together e h p d n g

-- `listen_addr`.
abbrev pub listen_addr {ℓ κ} : {U : Type ℓ} {H : Type κ} → BootEnv U H → H × ℕ
listen_addr env = (env.host, env.port)

-- The value of a variable judged by itself, and its problem.
abbrev pub value {ℓ} : {A : Type ℓ} → Result A VarProblem → Option A
value (ok a) = some a
value (err _) = none

abbrev pub problem {ℓ} : {A : Type ℓ} → Result A VarProblem → List VarProblem
problem (ok _) = []
problem (err p) = p ∷ []

noted-eq {ℓ} :
    {A : Type ℓ} (r : Result A VarProblem) (problems : List VarProblem)
    → noted r problems ≡ (value r, problems ++ problem r)
noted-eq (ok a) problems = ap (λ ps. (some a, ps)) (sym (append-nil problems))
noted-eq (err p) problems = refl

-- What the five judgements make of a result, each by itself.
pub data Answers {ℓ κ} {U : Type ℓ} {H : Type κ} (e : Result Environment.Environment VarProblem)
    (h : Result H VarProblem) (p : Result ℕ VarProblem) (d : Result (DatabaseUrl U) VarProblem)
    (n : Result (NatsUrl U) VarProblem)
    : Result (BootEnv U H) (List VarProblem) → Type (ℓ ⊔ κ) where
  reads :
      (env : BootEnv U H)
      → e ≡ ok env.environment
      → h ≡ ok env.host
      → p ≡ ok env.port
      → d ≡ ok env.database_url
      → n ≡ ok env.nats_url
      → Answers e h p d n (ok env)
  fails :
      (problems : List VarProblem)
      → problems ≢ []
      → problems ≡ problem e ++ problem h ++ problem p ++ problem d ++ problem n
      → Answers e h p d n (err problems)

together-Answers {ℓ κ} :
    {U : Type ℓ} {H : Type κ} (e : Result Environment.Environment VarProblem)
    (h : Result H VarProblem) (p : Result ℕ VarProblem) (d : Result (DatabaseUrl U) VarProblem)
    (n : Result (NatsUrl U) VarProblem)
    → Answers e h p d n (
        together
          (value e)
          (value h)
          (value p)
          (value d)
          (value n)
          (problem e ++ problem h ++ problem p ++ problem d ++ problem n))
together-Answers (ok e) (ok h) (ok p) (ok d) (ok n) =
    reads (record { environment = e; host = h; port = p; database_url = d; nats_url = n }) refl refl
      refl refl refl
together-Answers (ok e) (ok h) (ok p) (ok d) (err x) = fails _ (λ q. ground (arith, q)) refl
together-Answers (ok e) (ok h) (ok p) (err x) n = fails _ (λ q. ground (arith, q)) refl
together-Answers (ok e) (ok h) (err x) d n = fails _ (λ q. ground (arith, q)) refl
together-Answers (ok e) (err x) p d n = fails _ (λ q. ground (arith, q)) refl
together-Answers (err x) h p d n = fails _ (λ q. ground (arith, q)) refl

module _ {ℓ κ} {U : Type ℓ} {H : Type κ} (url : UrlParser U) (host_parser : Text → Option H)
    (port_parser : Text → Option ℕ) (default_host : H)
    (lookup_var : Text → Result Text VarError) where
  abbrev pub environment_of : Result Environment.Environment VarProblem
  environment_of =
      judge lookup_var Environment.from_str (err (missing (bytes "ENVIRONMENT")))
        (bytes "ENVIRONMENT")

  abbrev pub host_of : Result H VarProblem
  host_of = judge lookup_var (parse_host host_parser) (ok default_host) (bytes "HOST")

  abbrev pub port_of : Result ℕ VarProblem
  port_of = judge lookup_var (parse_port port_parser) (err (missing (bytes "PORT"))) (bytes "PORT")

  abbrev pub database_url_of : Result (DatabaseUrl U) VarProblem
  database_url_of =
      judge lookup_var (parse_database_url url) (err (missing (bytes "DATABASE_URL")))
        (bytes "DATABASE_URL")

  abbrev pub nats_url_of : Result (NatsUrl U) VarProblem
  nats_url_of =
      judge lookup_var (parse_nats_url url) (err (missing (bytes "NATS_URL"))) (bytes "NATS_URL")

  from_lookup-together :
      from_lookup url host_parser port_parser default_host lookup_var
      ≡ together
          (value environment_of)
          (value host_of)
          (value port_of)
          (value database_url_of)
          (value nats_url_of)
          (problem environment_of
            ++ problem host_of
            ++ problem port_of
            ++ problem database_url_of
            ++ problem nats_url_of)
  unfolding from_lookup
  from_lookup-together =
      let a = problem environment_of in
      let b = a ++ problem host_of in
      let c = b ++ problem port_of in
      let d = c ++ problem database_url_of in
      rw
        (
          required-judge lookup_var Environment.from_str (bytes "ENVIRONMENT") []
              ∙ noted-eq environment_of [],
          optional-judge lookup_var (parse_host host_parser) (bytes "HOST") default_host a
              ∙ noted-eq host_of a,
          required-judge lookup_var (parse_port port_parser) (bytes "PORT") b ∙ noted-eq port_of b,
          required-judge lookup_var (parse_database_url url) (bytes "DATABASE_URL") c
              ∙ noted-eq database_url_of c,
          required-judge lookup_var (parse_nats_url url) (bytes "NATS_URL") d
              ∙ noted-eq nats_url_of d,
        )
        refl

  -- Every problem is reported at once: when the environment is read, each variable, judged by
  -- itself, has the value that the environment holds; otherwise the errors are not empty, and are
  -- those of all five, each judged by itself, in their order.
  pub from_lookup-Answers :
      Answers environment_of host_of port_of database_url_of nats_url_of
        (from_lookup url host_parser port_parser default_host lookup_var)
  from_lookup-Answers =
      rw from_lookup-together
        (together-Answers environment_of host_of port_of database_url_of nats_url_of)
