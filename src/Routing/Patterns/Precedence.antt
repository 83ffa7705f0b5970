-- ===== src/Routing/Patterns/Precedence.antt =====
-- packages/routing/src/template/RoutePrecedence.ts: the segments that have a precedence.
use yohira.Common.{ℕ, ◌+◌, ◌*◌, ◌≡◌, refl, Bool, false, List, [], ◌∷◌, leb, some, ok, All}
use yohira.Routing.Patterns.{
  RoutePatternPart, RoutePatternParameterKind, Decimal, literal, parameter, separator, standard,
  optional, catch_all, compute_inbound_precedence_digit, add_digits, compute_inbound, visit_part,
  visit_segment, visit_segments, all_parameters, create_pattern,
}

-- A segment with a digit of base ten.
abbrev pub HasDigit : List RoutePatternPart → Type 0
HasDigit s =
    (digit : ℕ) × (compute_inbound_precedence_digit s ≡ some digit) × (leb 10 digit ≡ false)

pub literal-HasDigit : (content : List ℕ) → HasDigit (literal content ∷ [])
unfolding compute_inbound_precedence_digit
literal-HasDigit content = (1, refl, refl)

pub parameter-HasDigit :
    (name : List ℕ) (kind : RoutePatternParameterKind) (encode_slashes : Bool)
    → HasDigit (parameter name kind encode_slashes ∷ [])
unfolding compute_inbound_precedence_digit
parameter-HasDigit name standard encode_slashes = (3, refl, refl)
parameter-HasDigit name optional encode_slashes = (3, refl, refl)
parameter-HasDigit name catch_all encode_slashes = (5, refl, refl)

pub parts-HasDigit : (p q : RoutePatternPart) (ps : List RoutePatternPart) → HasDigit (p ∷ q ∷ ps)
unfolding compute_inbound_precedence_digit
parts-HasDigit p q ps = (2, refl, refl)

-- A part ahead of a segment with a digit.
pub cons-HasDigit :
    (p : RoutePatternPart) (ps : List RoutePatternPart) → HasDigit ps → HasDigit (p ∷ ps)
unfolding compute_inbound_precedence_digit
cons-HasDigit p [] (digit, e, lt) = cc
cons-HasDigit p (q ∷ ps) h = parts-HasDigit p q ps

add_digits-HasDigit :
    (i precedence : ℕ) (ss : List (List RoutePatternPart))
    → All HasDigit ss
    → (sum : Decimal) × (add_digits i precedence ss ≡ ok sum)
unfolding add_digits
add_digits-HasDigit i precedence [] h = (_, refl)
add_digits-HasDigit i precedence (s ∷ ss) ((digit, e, lt), h) =
    let (sum, added) = add_digits-HasDigit (i + 1) (precedence * 10 + digit) ss h in
    (sum, rw (e, lt, add_digits) added)

visit_part_same : (p : RoutePatternPart) → visit_part p ≡ p
unfolding visit_part
visit_part_same (literal content) = refl
visit_part_same (separator content) = refl
visit_part_same (parameter n kind e) = refl

visit_segment_same : (s : List RoutePatternPart) → visit_segment s ≡ s
unfolding visit_segment
visit_segment_same [] = refl
visit_segment_same (p ∷ ps) = rw (visit_part_same p, visit_segment_same ps) refl

visit_segments_same : (ss : List (List RoutePatternPart)) → visit_segments ss ≡ ss
unfolding visit_segments
visit_segments_same [] = refl
visit_segments_same (s ∷ ss) = rw (visit_segment_same s, visit_segments_same ss) refl

-- Segments with digits make a pattern.
pub create_pattern-HasDigit :
    (raw_text : List ℕ) (ss : List (List RoutePatternPart))
    → All HasDigit ss
    → (precedence : Decimal) × (compute_inbound ss ≡ ok precedence)
      × (create_pattern raw_text ss
          ≡ ok (record {
            inbound_precedence = precedence;
            raw_text = raw_text;
            parameters = all_parameters ss;
            path_segments = ss;
          }))
unfolding create_pattern compute_inbound
create_pattern-HasDigit raw_text ss h =
    let (precedence, summed) = add_digits-HasDigit 0 0 ss h in
    (precedence, summed, rw (visit_segments_same ss, summed) refl)
