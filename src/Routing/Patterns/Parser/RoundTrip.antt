-- ===== src/Routing/Patterns/Parser/RoundTrip.antt =====
-- RoutePatternParser.ts reads what debuggerToString of a route pattern's parts writes.
use yohira.Common.{
  ℕ, zero, suc, ◌+◌, ◌≤◌, ◌<◌, ◌≡◌, refl, sym, ap, ◌∙◌, true, false, not, ◌&&◌, List, [], ◌∷◌, ◌++◌,
  append_assoc, append-nil, ltb, leb, ◌==◌, length, length-append, ok, arith, At, At-advance,
  At-next, subst, All,
}
use yohira.Routing.Patterns.{
  RoutePatternPart, segment_text, pattern_text, Decimal, compute_inbound, all_parameters, standard,
}
use yohira.Routing.Patterns.Precedence.{
  HasDigit, literal-HasDigit, parameter-HasDigit, parts-HasDigit, create_pattern-HasDigit,
}
use yohira.Routing.Patterns.Parser.{
  current_is, trim_prefix, parse_segment, parse_segments, parse_route_pattern,
}
use yohira.Routing.Patterns.Parser.Scanning.{current_is-At}
use yohira.Routing.Patterns.Parser.Parameters.{At-whole}
use yohira.Routing.Patterns.Parser.Segments.{
  IsEnd, no_more, slash, names_after, AreFresh, Alternates, first_char, head-IsPart, parse_parts-At,
}
use yohira.Routing.Patterns.Parser.Forms.{
  IsSegment, IsPattern, no_segments, last_segment, next_segment, all_read, segment_text-all_read,
  names_after-all_read, all_read-AreFresh, segment-Alternates, is_segment_valid-all_read,
  pattern_valid, mixed, alone, end_literal, end_parameter, end_optional, literal_then, then_literal,
  then_separator,
}

-- No parameter of the pattern has the name of an earlier one, case ignored.
abbrev pub HasFreshNames : (List ℕ → List ℕ) → List (List ℕ) → List (List RoutePatternPart) → Type 0
HasFreshNames lower names [] = Unit
HasFreshNames lower names (s ∷ ss) =
    AreFresh lower names s × HasFreshNames lower (names_after lower names s) ss

Alternates-char :
    (ps : List RoutePatternPart)
    → Alternates ps
    → (c : ℕ) × (cs : List ℕ) × (segment_text ps ≡ c ∷ cs) × ((c == b'/') ≡ false)
unfolding segment_text
Alternates-char [] w = elim w [ ]
Alternates-char (p ∷ ps) w =
    let (c, cs, e, other) = first_char p (head-IsPart p ps w) in
    (c, cs ++ segment_text ps, ap (λ t. t ++ segment_text ps) e, other)

segment_char :
    (s : List RoutePatternPart)
    → IsSegment s
    → (c : ℕ) × (cs : List ℕ) × (segment_text s ≡ c ∷ cs) × ((c == b'/') ≡ false)
segment_char s w =
    let (c, cs, e, other) = Alternates-char (all_read s) (segment-Alternates s w) in
    (c, cs, sym (segment_text-all_read s) ∙ e, other)

module _ (lower : List ℕ → List ℕ) (template : List ℕ) where
  parse_segment-At :
      (i : ℕ) (names : List (List ℕ)) (s : List RoutePatternPart) (rest : List ℕ)
      → IsSegment s
      → AreFresh lower names s
      → IsEnd rest
      → At template i (segment_text s ++ rest)
      → parse_segment lower template i names
        ≡ ok (s, i + length (segment_text s), names_after lower names s)
  unfolding parse_segment
  parse_segment-At i names s rest w fresh e a =
      let same = segment_text-all_read s in
      rw
        (
          parse_parts-At lower template (suc (length template)) i names [] (all_read s) rest
              (omega arith) (segment-Alternates s w) (all_read-AreFresh lower names s fresh) e
              (subst (λ t. At template i (t ++ rest)) (sym same) a),
          is_segment_valid-all_read s w,
          same,
          names_after-all_read lower names s,
        )
        refl

  -- One turn of the loop of parseRoutePattern.
  segments_turn :
      (f i : ℕ) (names : List (List ℕ)) (acc : List (List RoutePatternPart))
      (s : List RoutePatternPart) (rest : List ℕ)
      → IsSegment s
      → AreFresh lower names s
      → IsEnd rest
      → At template i (segment_text s ++ rest)
      → parse_segments lower (suc f) template i names acc
        ≡ parse_segments lower f template
            (i + length (segment_text s) + 1)
            (names_after lower names s)
            (acc ++ s ∷ [])
  unfolding parse_segments
  segments_turn f i names acc s rest w fresh e a =
      let (c, cs, first, other) = segment_char s w in
      let long = ap length first in
      let whole : At template i (c ∷ cs ++ rest) = subst (λ t. At template i (t ++ rest)) first a in
      let inside : ltb i (length template) ≡ true = ground (arith, whole.within) in
      let here = current_is-At template i c b'/' (cs ++ rest) whole ∙ other in
      let behind = At-advance template i (segment_text s) rest a in
      let moves : leb (i + length (segment_text s)) i ≡ false = ground (arith, long) in
      rw
        (
          inside,
          here,
          parse_segment-At i names s rest w fresh e a,
          ended rest e (i + length (segment_text s)) behind,
          moves,
        )
        refl
    where
      ended :
          (rest : List ℕ)
          → IsEnd rest
          → (n : ℕ) → At template n rest
          → (ltb n (length template) && not (current_is template n b'/')) ≡ false
      ended _ no_more n a =
          let outside : ltb n (length template) ≡ false = ground (arith, a.within) in
          rw outside refl
      ended _ (slash rest) n a = rw (current_is-At template n b'/' b'/' rest a) (ground arith)

  segments_end :
      (f i : ℕ) (names : List (List ℕ)) (acc : List (List RoutePatternPart))
      → length template ≤ i
      → parse_segments lower (suc f) template i names acc ≡ ok acc
  unfolding parse_segments
  segments_end f i names acc le =
      let outside : ltb i (length template) ≡ false = ground arith in rw outside refl

  parse_segments-At :
      (f i : ℕ) (names : List (List ℕ)) (acc ss : List (List RoutePatternPart))
      → length template < i + f
      → IsPattern ss
      → HasFreshNames lower names ss
      → At template i (pattern_text ss)
      → parse_segments lower f template i names acc ≡ ok (acc ++ ss)
  unfolding pattern_text
  parse_segments-At zero i names acc ss lt w fresh a = absurd (omega (arith, lt, a.within))
  parse_segments-At (suc f) i names acc _ lt no_segments fresh a =
      segments_end f i names acc (omega (arith, a.within)) ∙ ap ok (sym (append-nil acc))
  parse_segments-At (suc zero) i names acc _ lt (last_segment s w) fresh a =
      let (c, cs, first, _) = segment_char s w in
      absurd (omega (arith, lt, a.within, ap length first))
  parse_segments-At (suc zero) i names acc _ lt (next_segment s t ss w n ws) fresh a =
      let (c, cs, first, _) = segment_char s w in
      let long = length-append (segment_text s) (b'/' ∷ pattern_text (t ∷ ss)) in
      absurd (omega (arith, lt, a.within, ap length first, long))
  parse_segments-At (suc (suc f)) i names acc _ lt (last_segment s w) fresh a =
      let whole : At template i (segment_text s ++ []) =
        subst (At template i) (sym (append-nil (segment_text s))) a in
      segments_turn (suc f) i names acc s [] w fresh.0 no_more whole
      ∙ segments_end f (i + length (segment_text s) + 1) _ _ (omega (arith, a.within))
  parse_segments-At (suc (suc f)) i names acc _ lt (next_segment s t ss w n ws) fresh a =
      let rest = pattern_text (t ∷ ss) in
      let behind =
        At-next template (i + length (segment_text s)) b'/' rest
          (At-advance template i (segment_text s) (b'/' ∷ rest) a) in
      let (c, cs, first, _) = segment_char s w in
      segments_turn (suc f) i names acc s (b'/' ∷ rest) w fresh.0 (slash rest) a
      ∙ parse_segments-At (suc f) (i + length (segment_text s) + 1) (names_after lower names s)
          (acc ++ s ∷ []) (t ∷ ss) (omega (arith, lt, ap length first)) ws fresh.1 behind
      ∙ ap ok (append_assoc acc (s ∷ []) (t ∷ ss))

trim_prefix-slash : (text : List ℕ) → trim_prefix (b'/' ∷ text) ≡ ok text
unfolding trim_prefix
trim_prefix-slash [] = refl
trim_prefix-slash (c ∷ text) = refl

IsSegment-HasDigit : (s : List RoutePatternPart) → IsSegment s → HasDigit s
IsSegment-HasDigit _ (alone n kind e _ _) = parameter-HasDigit n kind e
IsSegment-HasDigit _ (mixed _ (end_literal t _)) = literal-HasDigit t
IsSegment-HasDigit _ (mixed _ (end_parameter n _)) = parameter-HasDigit n standard true
IsSegment-HasDigit _ (mixed _ (end_optional n _)) = parts-HasDigit _ _ []
IsSegment-HasDigit _ (mixed _ (literal_then t n ps _ _)) = parts-HasDigit _ _ ps
IsSegment-HasDigit _ (mixed _ (then_literal n t ps _ _)) = parts-HasDigit _ _ ps
IsSegment-HasDigit _ (mixed _ (then_separator n ps _ _)) = parts-HasDigit _ _ ps

IsPattern-HasDigit : (ss : List (List RoutePatternPart)) → IsPattern ss → All HasDigit ss
IsPattern-HasDigit _ no_segments = tt
IsPattern-HasDigit _ (last_segment s w) = (IsSegment-HasDigit s w, tt)
IsPattern-HasDigit _ (next_segment s t ss w n ws) =
    (IsSegment-HasDigit s w, IsPattern-HasDigit (t ∷ ss) ws)

-- For segments that are well formed, with a catch-all parameter at most alone in the last one, and no
-- two parameters with names equal but for case: parseRoutePattern of a slash and their text returns
-- exactly these segments, the parameters in them, and the precedence that computeInbound gives them,
-- which it does without an error.
pub parse_route_pattern-pattern_text :
    (lower : List ℕ → List ℕ) (ss : List (List RoutePatternPart))
    → IsPattern ss
    → HasFreshNames lower [] ss
    → (precedence : Decimal) × (compute_inbound ss ≡ ok precedence)
      × (parse_route_pattern lower (b'/' ∷ pattern_text ss)
          ≡ ok (record {
            inbound_precedence = precedence;
            raw_text = b'/' ∷ pattern_text ss;
            parameters = all_parameters ss;
            path_segments = ss;
          }))
unfolding parse_route_pattern
parse_route_pattern-pattern_text lower ss w fresh =
    let text = pattern_text ss in
    let (precedence, summed, made) =
      create_pattern-HasDigit (b'/' ∷ text) ss (IsPattern-HasDigit ss w) in
    (
      precedence,
      summed,
      rw
          (
            trim_prefix-slash text,
            parse_segments-At lower text (suc (length text)) 0 [] [] ss (omega arith) w fresh
                (At-whole text),
            pattern_valid ss w,
          )
          made,
    )
