-- ===== src/Graphql.antt =====
-- crates/br-util-graphql/src/affordance.rs, reason_code.rs and pagination.rs: what a client may do,
-- and pages. An assertion that fails is `none`.
use br_rust_common.Base.{
  Bool, true, false, ◌&&◌, ◌||◌, Text, List, [], ◌∷◌, Option, none, some, all, nat_eq,
  is_ascii_lowercase, is_ascii_digit, text_Eq, text_Ord, insert, lookup, lookup-insert, ◌==◌,
  if◌then◌else◌, ◌≡◌, refl, ◌∙◌, ap,
}

pub record Affordance : Type 0 where
  pub action : Text
  pub allowed : Bool
  pub reason_code : Option Text
  pub params : Option (List (Text × Text))

unfoldable pub is_lower_snake : Text → Bool
is_lower_snake [] = false
is_lower_snake (c ∷ rest) =
    is_ascii_lowercase c
    && all (λ b. is_ascii_lowercase b || is_ascii_digit b || nat_eq b b'_') (c ∷ rest)

unfoldable pub allow : Text → Affordance
allow action = record { action = action; allowed = true; reason_code = none; params = none }

unfoldable pub block : Text → Text → Option Affordance
block action reason_code =
    if is_lower_snake reason_code
    then some
        (record { action = action; allowed = false; reason_code = some reason_code; params = none })
    else none

-- `get_or_insert_with(BTreeMap::new)`.
abbrev map_or_new : Option (List (Text × Text)) → List (Text × Text)
map_or_new none = []
map_or_new (some m) = m

unfoldable pub with_param : Affordance → Text → Text → Affordance
with_param a key value = record a { params = some (insert key value (map_or_new a.params)) }

unfoldable pub insert_all : List (Text × Text) → List (Text × Text) → List (Text × Text)
insert_all m [] = m
insert_all m ((key, value) ∷ params) = insert_all (insert key value m) params

unfoldable pub with_params : Affordance → List (Text × Text) → Affordance
with_params a params = record a { params = some (insert_all (map_or_new a.params) params) }

-- The value of a parameter.
abbrev pub param : Affordance → Text → Option Text
param a key = lookup (map_or_new a.params) key

-- The last value given for a key, or else the one before.
unfoldable pub last_value : Option Text → List (Text × Text) → Text → Option Text
last_value old [] key = old
last_value old ((k, v) ∷ params) key = last_value (if key == k then some v else old) params key

lookup-insert_all :
    (m params : List (Text × Text)) (key : Text)
    → lookup (insert_all m params) key ≡ last_value (lookup m key) params key
unfolding insert_all last_value
lookup-insert_all m [] key = refl
lookup-insert_all m ((k, v) ∷ params) key =
    lookup-insert_all (insert k v m) params key
    ∙ ap (λ o. last_value o params key) (lookup-insert k v m key)

-- After parameters are added, each key has the last value that was given for it, and the value it
-- had when none was given; one that is added alone has that value, and no other key changes.
pub with_params-last_value :
    (a : Affordance) (params : List (Text × Text)) (key k v : Text)
    → (param (with_params a params) key ≡ last_value (param a key) params key)
      × (param (with_param a k v) key ≡ (if key == k then some v else param a key))
unfolding with_params with_param
with_params-last_value a params key k v = (
  lookup-insert_all (map_or_new a.params) params key,
  lookup-insert k v (map_or_new a.params) key,
)

pub record Edge {ℓ} (T : Type ℓ) : Type ℓ where
  pub node : T
  pub cursor : Text

pub record PageInfo : Type 0 where
  pub has_next_page : Bool
  pub has_previous_page : Bool
  pub start_cursor : Option Text
  pub end_cursor : Option Text

pub record Connection {ℓ} (T : Type ℓ) : Type ℓ where
  pub edges : List (Edge T)
  pub page_info : PageInfo

module _ {ℓ} {T : Type ℓ} where
  abbrev first_cursor : List (Edge T) → Option Text
  first_cursor [] = none
  first_cursor (e ∷ _) = some e.cursor

  abbrev last_cursor : List (Edge T) → Option Text
  last_cursor [] = none
  last_cursor (e ∷ []) = some e.cursor
  last_cursor (e ∷ f ∷ es) = last_cursor (f ∷ es)

  unfoldable pub forward : List (Edge T) → Bool → Connection T
  forward edges has_next_page = record {
    edges = edges;
    page_info = record {
      has_next_page = has_next_page;
      has_previous_page = false;
      start_cursor = first_cursor edges;
      end_cursor = last_cursor edges;
    };
  }
