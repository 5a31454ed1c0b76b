-- ===== src/Fabric/Kv/Key.antt =====
-- crates/br-util-nats-fabric/src/kv/key.rs: keys and prefixes of keys.
use br_rust_common.Base.{
  ℕ, Bool, true, false, Text, not, ◌||◌, ◌&&◌, [], ◌∷◌, ◌++◌, any, all, is_empty,
  is_ascii_alphanumeric, nat_eq, nat_eq_iff, Result, ok, err, ◌>>◌, if◌then◌else◌, ◌≡◌, ◌≢◌, ◌↔◌,
  arith, refl, Eq, ◌==◌, text_Eq,
}

pub data KvKeyError : Type 0 where
  empty : KvKeyError
  invalid_char : (value : Text) → KvKeyError

abbrev pub valid_char : ℕ → Bool
valid_char c =
    is_ascii_alphanumeric c || (nat_eq c b'-' || nat_eq c b'_' || nat_eq c b'.' || nat_eq c b'/')

unfoldable pub validate : Text → Result (Unit {0}) KvKeyError
validate value =
    if is_empty value
    then err empty
    else if any (λ c. not (valid_char c)) value
    then err (invalid_char value)
    else ok tt

pub record KvKey : Type 0 where
  pub text : Text

pub record KvPrefix : Type 0 where
  pub text : Text

unfoldable pub new_key : Text → Result KvKey KvKeyError
new_key value = do validate value; ok (record { text = value })

unfoldable pub new_prefix : Text → Result KvPrefix KvKeyError
new_prefix value = do validate value; ok (record { text = value })

-- `format!("{}>", self.0)`.
unfoldable pub watch_subject : KvPrefix → Text
watch_subject prefix = prefix.text ++ b'>' ∷ []

-- `str::starts_with`, on bytes.
unfoldable pub starts_with : Text → Text → Bool
starts_with key [] = true
starts_with [] (c ∷ prefix) = false
starts_with (d ∷ key) (c ∷ prefix) = nat_eq d c && starts_with key prefix

unfoldable pub matches : KvPrefix → Text → Bool
matches prefix key = starts_with key prefix.text

pub kv_key_eq_iff : (a b : KvKey) → ((a.text == b.text) ≡ true) ↔ (a ≡ b)
kv_key_eq_iff a b = ground (arith, text_Eq.beq_iff a.text b.text)

instance abbrev pub kv_key_Eq : Eq KvKey
kv_key_Eq = record { beq = λ a b. a.text == b.text; beq_iff = kv_key_eq_iff }

any-not : (value : Text) → any (λ c. not (valid_char c)) value ≡ not (all valid_char value)
any-not [] = refl
any-not (c ∷ value) = ground (arith, any-not value)

-- A text is accepted as a key exactly when it is not empty and each byte is in
-- `[A-Za-z0-9_./-]`, and the key keeps it.
pub new_key-eq-ok_iff :
    (value : Text) (k : KvKey)
    → (new_key value ≡ ok k) ↔ ((value ≢ []) × (all valid_char value ≡ true) × (k.text ≡ value))
unfolding new_key validate
new_key-eq-ok_iff [] k = ground arith
new_key-eq-ok_iff (c ∷ value) k = ground (arith, any-not (c ∷ value))

starts_with_sound :
    (key prefix : Text) → starts_with key prefix ≡ true → (rest : Text) × (key ≡ prefix ++ rest)
unfolding starts_with
starts_with_sound key [] h = (key, refl)
starts_with_sound [] (c ∷ prefix) h = cc
starts_with_sound (d ∷ key) (c ∷ prefix) h =
    let (rest, e) = starts_with_sound key prefix (ground arith) in
    (rest, ground (arith, e, nat_eq_iff d c))

pub starts_with-append : (prefix rest : Text) → starts_with (prefix ++ rest) prefix ≡ true
unfolding starts_with
starts_with-append [] rest = refl
starts_with-append (c ∷ prefix) rest =
    ground (arith, starts_with-append prefix rest, nat_eq_iff c c)

-- A prefix matches exactly the keys that continue it.
pub matches_iff :
    (prefix : KvPrefix) (key : Text)
    → (matches prefix key ≡ true) ↔ ((rest : Text) × (key ≡ prefix.text ++ rest))
unfolding matches
matches_iff prefix key =
    (starts_with_sound key prefix.text, λ (rest, e). rw e (starts_with-append prefix.text rest))
