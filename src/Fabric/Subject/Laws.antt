-- ===== src/Fabric/Subject/Laws.antt =====
-- Rendering and parsing of subjects.
use br_rust_common.Base.{
  ℕ, ◌<◌, Text, true, false, List, [], ◌∷◌, ◌++◌, text_Eq, some, ok, err, split, split-append,
  split-of_has_byte, join-split, join, has_byte, all, ◌≡◌, refl, arith, is_ascii_digit,
}
use br_rust_common.Coords
use br_rust_common.Coords.{Coord, bc, aggregate, fact, CommandCoords, EventCoords, is_segment_byte}
use br_rust_common.Coords.Laws.{
  coord-eq-ok_iff, IsToken, IsEventCoords, IsCommandCoords, has_byte-eq-false, new_complete,
}
use br_rust_common.Fabric.Decimal.{decimal, parse_u8-decimal, decimal-digits, parse_u8-lt}
use br_rust_common.Fabric.Subject.{
  shape, integration_prefix, cmd_token, evt_token, subject, command_subject, event_subject,
  parse_version, parse_parts, parse_event_subject,
}

digits_no_dot : (s : Text) → all is_ascii_digit s ≡ true → has_byte b'.' s ≡ false
digits_no_dot [] h = refl
digits_no_dot (c ∷ s) h = ground (arith, digits_no_dot s)

-- A rendered subject has six segments.
pub split-subject :
    (token a b c : Text) (n : ℕ)
    → has_byte b'.' token ≡ false
    → IsToken a
    → IsToken b
    → IsToken c
    → n < 256
    → split b'.' (subject token a b c n)
      ≡ integration_prefix ∷ token ∷ a ∷ b ∷ c ∷ (b'v' ∷ decimal n) ∷ []
unfolding subject
split-subject token a b c n t ha hb hc hn = rw (
  split-append b'.' integration_prefix
      (token ++ b'.' ∷ (a ++ b'.' ∷ (b ++ b'.' ∷ (c ++ b'.' ∷ b'v' ∷ decimal n)))) refl,
  split-append b'.' token (a ++ b'.' ∷ (b ++ b'.' ∷ (c ++ b'.' ∷ b'v' ∷ decimal n))) t,
  split-append b'.' a (b ++ b'.' ∷ (c ++ b'.' ∷ b'v' ∷ decimal n))
      (has_byte-eq-false b'.' a refl ha.charset),
  split-append b'.' b (c ++ b'.' ∷ b'v' ∷ decimal n) (has_byte-eq-false b'.' b refl hb.charset),
  split-append b'.' c (b'v' ∷ decimal n) (has_byte-eq-false b'.' c refl hc.charset),
  split-of_has_byte b'.' (b'v' ∷ decimal n) (digits_no_dot (decimal n) (decimal-digits n hn)),
)

-- The subject of valid event coordinates parses to these coordinates.
pub parse_event_subject-event_subject :
    (c : EventCoords) → IsEventCoords c → parse_event_subject (event_subject c) ≡ ok c
unfolding parse_event_subject event_subject parse_version
parse_event_subject-event_subject c v = ground (
  arith,
  split-subject evt_token c.producer.text c.aggregate.text c.fact.text c.version refl v.producer_ok
      v.aggregate_ok v.fact_ok v.version_ok,
  parse_u8-decimal c.version v.version_ok,
  new_complete c.producer v.producer_ok,
  new_complete c.aggregate v.aggregate_ok,
  new_complete c.fact v.fact_ok,
)

-- No command subject is taken for an event subject.
pub parse_event_subject-command_subject :
    (c : CommandCoords)
    → IsCommandCoords c
    → parse_event_subject (command_subject c) ≡ err (shape (command_subject c))
unfolding parse_event_subject command_subject
parse_event_subject-command_subject c v = ground (
  arith,
  split-subject cmd_token c.receiver.text c.aggregate.text c.verb.text c.version refl v.receiver_ok
      v.aggregate_ok v.verb_ok v.version_ok,
)

-- What an accepted subject looks like.
pub record IsParsed (s : Text) (c : EventCoords) : Type 0 where
  pub segment : Text
  pub shape_ok :
      s
      ≡ integration_prefix
        ++ b'.'
          ∷ (evt_token
              ++ b'.'
                ∷ (c.producer.text
                    ++ b'.' ∷ (c.aggregate.text ++ b'.' ∷ (c.fact.text ++ b'.' ∷ segment))))
  pub version_read : parse_version segment ≡ some c.version
  pub coords_ok : IsEventCoords c

parse_version-lt : (s : Text) (n : ℕ) → parse_version s ≡ some n → n < 256
unfolding parse_version
parse_version-lt [] n h = cc
parse_version-lt (c ∷ s) n h = ground (arith, parse_u8-lt s n)

-- The stages of a parse that succeeds.
parse_stages :
    (s p t a b f v : Text) (c : EventCoords)
    → parse_parts s (p ∷ t ∷ a ∷ b ∷ f ∷ v ∷ []) ≡ ok c
    → (p ≡ integration_prefix)
      × (t ≡ evt_token)
      × (parse_version v ≡ some c.version)
      × (Coords.new bc a ≡ ok c.producer)
      × (Coords.new aggregate b ≡ ok c.aggregate)
      × (Coords.new fact f ≡ ok c.fact)
unfolding parse_parts
parse_stages s p t a b f v c h =
    ground (arith, text_Eq.beq_iff p integration_prefix, text_Eq.beq_iff t evt_token)

parse_parts_sound :
    (s : Text) (parts : List Text) (c : EventCoords)
    → join b'.' parts ≡ s
    → parse_parts s parts ≡ ok c
    → IsParsed s c
unfolding parse_parts join
parse_parts_sound s (p ∷ t ∷ a ∷ b ∷ f ∷ v ∷ []) c j h =
    let (ep, et, ev, ea, eb, ef) = parse_stages s p t a b f v c h in
    let (va, ta) = (coord-eq-ok_iff bc a c.producer).0 ea in
    let (vb, tb) = (coord-eq-ok_iff aggregate b c.aggregate).0 eb in
    let (vf, tf) = (coord-eq-ok_iff fact f c.fact).0 ef in
    record {
      segment = v;
      shape_ok = cc (j, ep, et, ta, tb, tf);
      version_read = ev;
      coords_ok = record {
        producer_ok = rw ta va;
        aggregate_ok = rw tb vb;
        fact_ok = rw tf vf;
        version_ok = parse_version-lt v c.version ev;
      };
    }
parse_parts_sound s _ c j h = cc

-- A subject that parses is the prefix, the event token, the three coordinates and a version
-- segment that reads as the version, joined by dots; and the coordinates are valid.
pub parse_event_subject_sound :
    (s : Text) (c : EventCoords) → parse_event_subject s ≡ ok c → IsParsed s c
unfolding parse_event_subject
parse_event_subject_sound s c h = parse_parts_sound s (split b'.' s) c (join-split b'.' s) h
