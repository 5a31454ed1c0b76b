-- ===== src/Boot/Reader.antt =====
-- crates/br-util-boot/src/boot_env.rs and error.rs: one variable of the environment is read, and what
-- is wrong with it noted. `lookup` is an argument.
use br_rust_common.Base.{
  Text, List, [], ◌∷◌, ◌++◌, Option, none, some, Result, ok, err, map_err, is_empty, if◌then◌else◌,
  ◌≡◌, arith, Result-cases, inl, inr,
}
use br_rust_common.Boot.Environment.{InvalidValue}

pub data VarError : Type 0 where
  not_present not_unicode : VarError

pub data VarProblem : Type 0 where
  missing empty not_unicode_value : (var : Text) → VarProblem
  invalid : (var : Text) (reason : InvalidValue) → VarProblem

pub data Lookup : Type 0 where
  unset unusable : Lookup
  set : Text → Lookup

-- A value, or one more problem.
abbrev pub noted {ℓ} :
    {T : Type ℓ} → Result T VarProblem → List VarProblem → Option T × List VarProblem
noted (ok value) problems = (some value, problems)
noted (err problem) problems = (none, problems ++ problem ∷ [])

module _ (lookup_var : Text → Result Text VarError) where
  -- `Reader::lookup`, with the problems after it.
  unfoldable pub lookup : Text → List VarProblem → Lookup × List VarProblem
  lookup var problems = elim (lookup_var var) [
    | err not_present ↦ (unset, problems)
    | err not_unicode ↦ (unusable, problems ++ not_unicode_value var ∷ [])
    | ok value ↦
        if is_empty value then (unusable, problems ++ empty var ∷ []) else (set value, problems)
  ]

  module _ {ℓ} {T : Type ℓ} (parse : Text → Result T InvalidValue) where
    unfoldable pub parse_var : Text → Text → List VarProblem → Option T × List VarProblem
    parse_var var raw problems = elim (parse raw) [
      | ok value ↦ (some value, problems)
      | err reason ↦ (none, problems ++ invalid var reason ∷ [])
    ]

    unfoldable pub required : Text → List VarProblem → Option T × List VarProblem
    required var problems =
        let (found, noted) = lookup var problems in
        elim found [
          | set raw ↦ parse_var var raw noted
          | unset ↦ (none, noted ++ missing var ∷ [])
          | unusable ↦ (none, noted)
        ]

    unfoldable pub optional : Text → T → List VarProblem → Option T × List VarProblem
    optional var default problems =
        let (found, noted) = lookup var problems in
        elim found [
          | set raw ↦ parse_var var raw noted
          | unset ↦ (some default, noted)
          | unusable ↦ (none, noted)
        ]

    -- What a variable is worth by itself: a value, or the one problem with it.
    unfoldable pub judge : Result T VarProblem → Text → Result T VarProblem
    judge unset_answer var = elim (lookup_var var) [
      | err not_present ↦ unset_answer
      | err not_unicode ↦ err (not_unicode_value var)
      | ok value ↦
          if is_empty value then err (empty var) else map_err (λ r. invalid var r) (parse value)
    ]

    pub required-judge :
        (var : Text) (problems : List VarProblem)
        → required var problems ≡ noted (judge (err (missing var)) var) problems
    unfolding required judge lookup parse_var
    required-judge var problems = elim (Result-cases (lookup_var var)) [
      | inr (not_present, e) ↦ ground (arith, e)
      | inr (not_unicode, e) ↦ ground (arith, e)
      | inl ([], e) ↦ ground (arith, e)
      | inl (c ∷ value, e) ↦ elim (Result-cases (parse (c ∷ value))) [
        | inl (v, p) ↦ ground (arith, e, p)
        | inr (r, p) ↦ ground (arith, e, p)
      ]
    ]

    pub optional-judge :
        (var : Text) (default : T) (problems : List VarProblem)
        → optional var default problems ≡ noted (judge (ok default) var) problems
    unfolding optional judge lookup parse_var
    optional-judge var default problems = elim (Result-cases (lookup_var var)) [
      | inr (not_present, e) ↦ ground (arith, e)
      | inr (not_unicode, e) ↦ ground (arith, e)
      | inl ([], e) ↦ ground (arith, e)
      | inl (c ∷ value, e) ↦ elim (Result-cases (parse (c ∷ value))) [
        | inl (v, p) ↦ ground (arith, e, p)
        | inr (r, p) ↦ ground (arith, e, p)
      ]
    ]
