-- ===== src/Boot/Environment.antt =====
-- crates/br-util-boot/src/environment.rs and error.rs: the environments, and why a value is refused.
-- The source words a refusal as a text.
use br_rust_common.Base.{
  Text, bytes, List, [], ◌∷◌, none, some, Result, ok, err, ◌==◌, text_Eq, find, ◌≡◌, ◌↔◌, refl,
  arith, Bool, true, Bool-cases, Option-cases, inl, inr,
}

pub data InvalidValue : Type 0 where
  not_port not_host unknown_environment : Text → InvalidValue
  not_url : Text → InvalidValue
  bad_scheme : Text → InvalidValue
  no_host : InvalidValue

pub data Environment : Type 0 where
  local dev test uat prod : Environment

abbrev pub all_environments : List Environment
all_environments = local ∷ dev ∷ test ∷ uat ∷ prod ∷ []

unfoldable pub as_str : Environment → Text
as_str local = bytes "local"
as_str dev = bytes "dev"
as_str test = bytes "test"
as_str uat = bytes "uat"
as_str prod = bytes "prod"

unfoldable pub from_str : Text → Result Environment InvalidValue
from_str s = elim (find (λ environment. as_str environment == s) all_environments) [
  | some environment ↦ ok environment
  | none ↦ err (unknown_environment s)
]

find-holds {ℓ} : {A : Type ℓ} (p : A → Bool) (xs : List A) (x : A) → find p xs ≡ some x → p x ≡ true
find-holds p [] x h = ground (arith, h)
find-holds p (y ∷ xs) x h = elim (Bool-cases (p y)) [
  | inl e ↦ ground (arith, e, h)
  | inr e ↦ find-holds p xs x (rw e at h)
]

from_str_sound : (s : Text) (e : Environment) → from_str s ≡ ok e → as_str e ≡ s
unfolding from_str
from_str_sound s e h =
    elim (Option-cases (find (λ environment. as_str environment == s) all_environments)) [
      | inl n ↦ ground (arith, n, h)
      | inr (found, n) ↦
          let same : found ≡ e = ground (arith, n, h) in
          rw same at (
            (text_Eq.beq_iff (as_str found) s).0
              (find-holds (λ environment. as_str environment == s) all_environments found n))
    ]

from_str-as_str : (e : Environment) → from_str (as_str e) ≡ ok e
unfolding from_str as_str
from_str-as_str local = refl
from_str-as_str dev = refl
from_str-as_str test = refl
from_str-as_str uat = refl
from_str-as_str prod = refl

-- A text is read as an environment exactly when it is that environment's spelling.
pub from_str-eq-ok_iff : (s : Text) (e : Environment) → (from_str s ≡ ok e) ↔ (as_str e ≡ s)
from_str-eq-ok_iff s e = (from_str_sound s e, λ p. rw (← p) (from_str-as_str e))
