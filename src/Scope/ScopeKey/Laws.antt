-- ===== src/Scope/ScopeKey/Laws.antt =====
-- What `ScopeKey::new` accepts, and how the two segments make up the key.
use br_rust_common.Base.{
  ℕ, Text, ok, length, ◌≡◌, ◌↔◌, ◌≤◌, arith, List, [], ◌∷◌, ◌++◌, split, split-append,
  split-of_has_byte, join-split, join, ap, refl, sym, take-length-append, ◌+◌, ◌∙◌, suc, drop,
  text_Eq,
}
use br_rust_common.Scope.ServiceKey.{service_key_max_len}
use br_rust_common.Scope.ServiceKey.Laws.{IsSegment, validate_segment-eq-ok, has_byte-eq-false}
use br_rust_common.Scope.ScopeKey.{
  ScopeKey, scope_key_max_len, new_of_parts, new, service_segment, capability_segment,
}

-- A well-formed key: two segments around one colon, which `colon` points to.
pub record IsKey (k : ScopeKey) : Type 0 where
  pub service : Text
  pub capability : Text
  pub split_at : k.raw ≡ service ++ b':' ∷ capability
  pub colon_at : k.colon ≡ length service
  pub total : length k.raw ≤ scope_key_max_len
  pub service_ok : IsSegment service_key_max_len service
  pub capability_ok : IsSegment scope_key_max_len capability

split-two :
    (service capability : Text)
    → IsSegment service_key_max_len service
    → IsSegment scope_key_max_len capability
    → split b':' (service ++ b':' ∷ capability) ≡ service ∷ capability ∷ []
split-two service capability s c =
    split-append b':' service capability (has_byte-eq-false b':' service refl s.charset)
    ∙ ap (λ r. service ∷ r)
        (split-of_has_byte b':' capability (has_byte-eq-false b':' capability refl c.charset))

new_of_parts-IsKey :
    (value : Text) (parts : List Text) (k : ScopeKey)
    → length value ≤ scope_key_max_len
    → join b':' parts ≡ value
    → new_of_parts value parts ≡ ok k
    → IsKey k × (k.raw ≡ value)
unfolding new_of_parts join
new_of_parts-IsKey value [] k l j h = cc
new_of_parts-IsKey value (w ∷ []) k l j h = cc
new_of_parts-IsKey value (w ∷ v ∷ []) k l j h = (
  record {
    service = w;
    capability = v;
    split_at = ground (arith);
    colon_at = ground arith;
    total = ground arith;
    service_ok = (validate_segment-eq-ok w service_key_max_len).0 ground arith;
    capability_ok = (validate_segment-eq-ok v scope_key_max_len).0 ground arith;
  },
  ground arith,
)
new_of_parts-IsKey value (w ∷ v ∷ u ∷ ws) k l j h = cc

-- Soundness: an accepted key is well-formed, and is the text that was given.
new_sound : (value : Text) (k : ScopeKey) → new value ≡ ok k → IsKey k × (k.raw ≡ value)
unfolding new
new_sound value k h =
    new_of_parts-IsKey value (split b':' value) k (ground arith) (join-split b':' value)
      (ground arith)

-- Completeness: each well-formed key is accepted.
pub new_complete : (k : ScopeKey) → IsKey k → new k.raw ≡ ok k
unfolding new new_of_parts
new_complete k w = ground (
  arith,
  split-two w.service w.capability w.service_ok w.capability_ok,
  (validate_segment-eq-ok w.service service_key_max_len).1 w.service_ok,
  (validate_segment-eq-ok w.capability scope_key_max_len).1 w.capability_ok,
)

-- A text is accepted as the key `k` exactly when it is the text of `k` and `k` is well-formed.
pub scope_key-eq-ok_iff :
    (value : Text) (k : ScopeKey) → (new value ≡ ok k) ↔ (IsKey k × (k.raw ≡ value))
scope_key-eq-ok_iff value k = (new_sound value k, λ (w, e). rw (← e) (new_complete k w))

pub service_segment-eq : (k : ScopeKey) (w : IsKey k) → service_segment k ≡ w.service
unfolding service_segment
service_segment-eq k w =
    rw (w.colon_at, w.split_at) (take-length-append w.service (b':' ∷ w.capability))

drop-suc-length : (xs : Text) (c : ℕ) (ys : Text) → drop (suc (length xs)) (xs ++ c ∷ ys) ≡ ys
drop-suc-length [] c ys = refl
drop-suc-length (x ∷ xs) c ys = drop-suc-length xs c ys

pub capability_segment-eq : (k : ScopeKey) (w : IsKey k) → capability_segment k ≡ w.capability
unfolding capability_segment
capability_segment-eq k w =
    let e : k.colon + 1 ≡ suc (length w.service) = omega (arith, w.colon_at) in
    rw (e, w.split_at) (drop-suc-length w.service b':' w.capability)

-- The segments of an accepted key, put around a colon, are the key.
pub segments_lem :
    (value : Text) (k : ScopeKey)
    → new value ≡ ok k
    → service_segment k ++ b':' ∷ capability_segment k ≡ value
segments_lem value k h =
    let (w, e) = new_sound value k h in
    rw (service_segment-eq k w, capability_segment-eq k w) (sym w.split_at ∙ e)
