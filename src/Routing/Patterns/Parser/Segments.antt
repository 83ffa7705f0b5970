-- ===== src/Routing/Patterns/Parser/Segments.antt =====
-- RoutePatternParser.ts at a printed segment.
use yohira.Common.{
  ℕ, zero, suc, ◌+◌, ◌<◌, ◌≡◌, refl, sym, ap, ◌∙◌, Bool, true, false, not, ◌||◌, List, [], ◌∷◌,
  ◌++◌, append_assoc, append-nil, ltb, leb, ◌==◌, length, length-append, slice, Result, ok, arith,
  All, includes, At, At-advance, At-next, At-slice, At-end, subst,
}
use yohira.Routing.Patterns.{
  RouteError, RoutePatternPart, RoutePatternParameterKind, literal, parameter, separator, part_text,
  segment_text, create_literal_part, is_parameter,
}
use yohira.Routing.Patterns.Parser.{
  current_is, is_valid_literal, parse_literal, parse_part, parse_parts, member,
}
use yohira.Routing.Patterns.Parser.Scanning.{
  current_is-At, literal_end-At, NoBraces, decode-same, IsPlainText, StopsLiteral, at_end,
  at_separator, at_brace,
}
use yohira.Routing.Patterns.Parser.Parameters.{
  IsKind, IsNameChar, first_inner, inner, part_text-parameter, parse_parameter-At,
}

plain-NoBraces : (text : List ℕ) → IsPlainText text → NoBraces text
plain-NoBraces [] h = tt
plain-NoBraces (c ∷ text) h = ((h.0.1, h.0.2), plain-NoBraces text h.1)

no_question_mark : (text : List ℕ) → IsPlainText text → includes text b'?' ≡ false
unfolding includes
no_question_mark [] h = refl
no_question_mark (c ∷ text) h = rw h.0.3 (no_question_mark text h.1)

parse_literal-At :
    (template : List ℕ) (i c : ℕ) (text rest : List ℕ)
    → IsPlainText (c ∷ text)
    → StopsLiteral rest
    → At template i (c ∷ text ++ rest)
    → parse_literal template i ≡ ok (literal (c ∷ text), i + length (c ∷ text))
unfolding parse_literal is_valid_literal create_literal_part
parse_literal-At template i c text rest p s a =
    let long = length-append text rest in
    let end =
      literal_end-At template (suc (length template)) i c text rest (omega (arith, a.within, long))
        p s a in
    let size : i + 1 + length text ≡ i + length (c ∷ text) = omega arith in
    let cut : slice template i (i + 1 + length text) ≡ c ∷ text =
      ap (slice template i) size ∙ At-slice (c ∷ text) rest a in
    rw
      (
        end,
        cut,
        decode-same (c ∷ text) (plain-NoBraces (c ∷ text) p),
        no_question_mark (c ∷ text) p,
      )
      (ap (λ n. ok (literal (c ∷ text), n)) size)

-- A literal or a parameter as it is printed.
pub data IsPart : RoutePatternPart → Type 0 where
  a_literal : (c : ℕ) (text : List ℕ) → IsPlainText (c ∷ text) → IsPart (literal (c ∷ text))
  a_parameter :
      (c : ℕ) (name : List ℕ) (kind : RoutePatternParameterKind) (e : Bool)
      → All IsNameChar (c ∷ name)
      → IsKind kind e
      → IsPart (parameter (c ∷ name) kind e)

-- Literals and parameters by turns.
pub data Alternates : List RoutePatternPart → Type 0 where
  last_part : (p : RoutePatternPart) → IsPart p → Alternates (p ∷ [])
  next_part :
      (p q : RoutePatternPart) (ps : List RoutePatternPart)
      → IsPart p
      → (is_parameter p ≡ not (is_parameter q))
      → Alternates (q ∷ ps)
      → Alternates (p ∷ q ∷ ps)

-- The end of a segment.
pub data IsEnd : List ℕ → Type 0 where
  no_more : IsEnd []
  slash : (rest : List ℕ) → IsEnd (b'/' ∷ rest)

-- What a part is told apart by from what follows it.
abbrev StopsParameter : List ℕ → Type 0
StopsParameter [] = Unit
StopsParameter (c ∷ rest) = (c == b'}') ≡ false

abbrev StopsPart : RoutePatternPart → List ℕ → Type 0
StopsPart (parameter name kind e) rest = StopsParameter rest
StopsPart _ rest = StopsLiteral rest

module _ (lower : List ℕ → List ℕ) where
  -- The names with those of the parts.
  abbrev pub names_after : List (List ℕ) → List RoutePatternPart → List (List ℕ)
  names_after names [] = names
  names_after names (parameter name kind e ∷ ps) = names_after (lower name ∷ names) ps
  names_after names (_ ∷ ps) = names_after names ps

  -- No parameter has the name of another, case ignored.
  abbrev pub AreFresh : List (List ℕ) → List RoutePatternPart → Type 0
  AreFresh names [] = Unit
  AreFresh names (parameter name kind e ∷ ps) =
      (member names (lower name) ≡ false) × AreFresh (lower name ∷ names) ps
  AreFresh names (_ ∷ ps) = AreFresh names ps

end_stops : (p : RoutePatternPart) (rest : List ℕ) → IsPart p → IsEnd rest → StopsPart p rest
end_stops _ _ (a_literal c text h) no_more = at_end
end_stops _ _ (a_literal c text h) (slash rest) = at_separator rest
end_stops _ _ (a_parameter c name kind e h k) no_more = tt
end_stops _ _ (a_parameter c name kind e h k) (slash rest) = refl

-- A part prints a character that no segment ends with.
pub first_char :
    (p : RoutePatternPart)
    → IsPart p
    → (c : ℕ) × (cs : List ℕ) × (part_text p ≡ c ∷ cs) × ((c == b'/') ≡ false)
unfolding part_text
first_char _ (a_literal c text h) = (c, text, refl, h.0.0)
first_char _ (a_parameter c name kind e h k) = (b'{', _, refl, refl)

part_stops :
    (p q : RoutePatternPart) (rest : List ℕ)
    → IsPart p
    → IsPart q
    → (is_parameter p ≡ not (is_parameter q))
    → StopsPart p (part_text q ++ rest)
unfolding part_text
part_stops _ _ rest (a_literal c text h) (a_literal d other k) n = absurd (ground arith)
part_stops _ _ rest (a_literal c text h) (a_parameter d name kind e k i) n =
    let (x, xs, same, other, _) = first_inner d name kind e i k in
    subst StopsLiteral
      (sym (
        ap (λ t. t ++ rest) (part_text-parameter (d ∷ name) kind e)
        ∙ ap (λ t. (b'{' ∷ t ++ b'}' ∷ []) ++ rest) same))
      (at_brace x ((xs ++ b'}' ∷ []) ++ rest) other)
part_stops _ _ rest (a_parameter c name kind e h i) (a_literal d other k) n = k.0.2
part_stops _ _ rest (a_parameter c name kind e h i) (a_parameter d name' kind' e' k j) n =
    absurd (ground arith)

pub head-IsPart :
    (p : RoutePatternPart) (ps : List RoutePatternPart) → Alternates (p ∷ ps) → IsPart p
head-IsPart _ _ (last_part p w) = w
head-IsPart _ _ (next_part p q ps w n ws) = w

module _ (lower : List ℕ → List ℕ) (names : List (List ℕ)) where
  one_fresh :
      (p : RoutePatternPart) (ps : List RoutePatternPart)
      → AreFresh lower names (p ∷ ps)
      → AreFresh lower names (p ∷ [])
  one_fresh (literal content) ps h = tt
  one_fresh (separator content) ps h = tt
  one_fresh (parameter name kind e) ps h = (h.0, tt)

  more_fresh :
      (p : RoutePatternPart) (ps : List RoutePatternPart)
      → AreFresh lower names (p ∷ ps)
      → AreFresh lower (names_after lower names (p ∷ [])) ps
  more_fresh (literal content) ps h = h
  more_fresh (separator content) ps h = h
  more_fresh (parameter name kind e) ps h = h.1

  names_after-step :
      (p : RoutePatternPart) (ps : List RoutePatternPart)
      → names_after lower (names_after lower names (p ∷ [])) ps ≡ names_after lower names (p ∷ ps)
  names_after-step (literal content) ps = refl
  names_after-step (separator content) ps = refl
  names_after-step (parameter name kind e) ps = refl

module _ (lower : List ℕ → List ℕ) (template : List ℕ) where
  -- One turn of the loop of parseSegment.
  parse_part-At :
      (i : ℕ) (names : List (List ℕ)) (p : RoutePatternPart) (rest : List ℕ)
      → IsPart p
      → AreFresh lower names (p ∷ [])
      → StopsPart p rest
      → At template i (part_text p ++ rest)
      → parse_part lower template i names
        ≡ ok (p, i + length (part_text p), names_after lower names (p ∷ []))
  unfolding parse_part part_text
  parse_part-At i names _ rest (a_literal c text h) fresh s a =
      rw
        (
          current_is-At template i c b'{' (text ++ rest) a,
          h.0.1,
          parse_literal-At template i c text rest h s a,
        )
        refl
  parse_part-At i names _ rest (a_parameter c name kind e h k) fresh s a =
      let body = inner (c ∷ name) kind e in
      let (x, xs, same, other, _) = first_inner c name kind e k h in
      let printed = part_text-parameter (c ∷ name) kind e in
      let whole : At template i (b'{' ∷ body ++ b'}' ∷ rest) =
        subst (At template i)
          (ap (λ t. t ++ rest) printed ∙ ap (λ t. b'{' ∷ t) (append_assoc body (b'}' ∷ []) rest))
          a in
      let long = length-append body (b'}' ∷ rest) in
      let more : ltb (i + 1) (length template) ≡ true = ground (arith, whole.within, long) in
      let next = At-next template i b'{' (body ++ b'}' ∷ rest) whole in
      let inside : At template (i + 1) (x ∷ xs ++ b'}' ∷ rest) =
        subst (λ t. At template (i + 1) (t ++ b'}' ∷ rest)) same next in
      let behind : At template (i + 1 + length body + 1) rest =
        At-next template (i + 1 + length body) b'}' rest
          (At-advance template (i + 1) body (b'}' ∷ rest) next) in
      let size : i + 1 + length body + 1 ≡ i + length (part_text (parameter (c ∷ name) kind e)) =
        omega (arith, ap length printed, length-append body (b'}' ∷ [])) in
      rw
        (
          current_is-At template i b'{' b'{' (body ++ b'}' ∷ rest) whole,
          more,
          current_is-At template (i + 1) x b'{' (xs ++ b'}' ∷ rest) inside,
          other,
          parse_parameter-At lower template names i c name kind e rest k h fresh.0 whole
              (not_closing rest s (i + 1 + length body + 1) behind),
        )
        (ap (λ n. ok (parameter (c ∷ name) kind e, n, lower (c ∷ name) ∷ names)) size)
    where
      not_closing :
          (rest : List ℕ)
          → StopsParameter rest
          → (n : ℕ) → At template n rest
          → current_is template n b'}' ≡ false
      not_closing [] s n a = rw (At-end a, current_is) refl
      not_closing (c ∷ rest) s n a = current_is-At template n c b'}' rest a ∙ s

  -- The loop of parseSegment.
  pub parse_parts-At :
      (f i : ℕ) (names : List (List ℕ)) (acc ps : List RoutePatternPart) (rest : List ℕ)
      → length template < i + f
      → Alternates ps
      → AreFresh lower names ps
      → IsEnd rest
      → At template i (segment_text ps ++ rest)
      → parse_parts lower f template i names acc
        ≡ ok (acc ++ ps, i + length (segment_text ps), names_after lower names ps)
  unfolding parse_parts segment_text
  parse_parts-At zero i names acc ps rest lt w fresh e a = absurd (omega (arith, lt, a.within))
  parse_parts-At (suc f) i names acc _ rest lt (last_part p w) fresh e a =
      let text = part_text p in
      let whole : At template i (text ++ rest) =
        subst (λ t. At template i (t ++ rest)) (append-nil text) a in
      let step =
        parse_part-At i names p rest w (one_fresh lower names p [] fresh) (end_stops p rest w e)
          whole in
      let behind = At-advance template i text rest whole in
      rw (append-nil text, step, closed rest e (i + length text) behind)
        (ap (λ n. ok (acc ++ p ∷ [], i + length text, n)) refl)
    where
      closed :
          (rest : List ℕ)
          → IsEnd rest
          → (n : ℕ) → At template n rest
          → (current_is template n b'/' || leb (length template) n) ≡ true
      closed _ no_more n a =
          let inside : leb (length template) n ≡ true = ground (arith, a.within) in
          rw (At-end a, current_is, inside) refl
      closed _ (slash rest) n a = rw (current_is-At template n b'/' b'/' rest a) refl
  parse_parts-At (suc f) i names acc _ rest lt (next_part p q ps w n ws) fresh e a =
      let text = part_text p in
      let others = segment_text (q ∷ ps) in
      let whole : At template i (text ++ (others ++ rest)) =
        subst (At template i) (append_assoc text others rest) a in
      let v = head-IsPart q ps ws in
      let (c, cs, same, other) = first_char q v in
      let follows : others ++ rest ≡ part_text q ++ (segment_text ps ++ rest) =
        append_assoc (part_text q) (segment_text ps) rest in
      let stops : StopsPart p (others ++ rest) =
        subst (StopsPart p) (sym follows) (part_stops p q (segment_text ps ++ rest) w v n) in
      let step =
        parse_part-At i names p (others ++ rest) w (one_fresh lower names p (q ∷ ps) fresh) stops
          whole in
      let behind = At-advance template i text (others ++ rest) whole in
      let inside : At template (i + length text) (c ∷ cs ++ (segment_text ps ++ rest)) =
        subst (At template (i + length text))
          (follows ∙ ap (λ t. t ++ (segment_text ps ++ rest)) same) behind in
      let goes_on = current_is-At template (i + length text) c b'/' _ inside ∙ other in
      let more : leb (length template) (i + length text) ≡ false = ground (arith, inside.within) in
      let (_, ts, first, _) = first_char p w in
      let moves : leb (i + length text) i ≡ false = ground (arith, ap length first) in
      let size : i + length text + length others ≡ i + length (text ++ others) =
        omega (arith, length-append text others) in
      rw (step, goes_on, more, moves)
        (parse_parts-At f (i + length text) (names_after lower names (p ∷ [])) (acc ++ p ∷ [])
            (q ∷ ps) rest (omega (arith, lt, ap length first)) ws
            (more_fresh lower names p (q ∷ ps) fresh) e behind
          ∙ parsed (append_assoc acc (p ∷ []) (q ∷ ps)) size
              (names_after-step lower names p (q ∷ ps)))
    where
      parsed :
          {xs ys : List RoutePatternPart} {m n : ℕ} {ks ls : List (List ℕ)}
          → xs ≡ ys
          → m ≡ n
          → ks ≡ ls
          → ◌≡◌ {A = Result RouteError (List RoutePatternPart × ℕ × List (List ℕ))}
              (ok (xs, m, ks))
              (ok (ys, n, ls))
      parsed e h k = rw (e, h, k) refl
