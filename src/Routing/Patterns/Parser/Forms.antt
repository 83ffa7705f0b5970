-- ===== src/Routing/Patterns/Parser/Forms.antt =====
-- The forms of a route's segments, and the checks of RoutePatternParser.ts on them.
use yohira.Common.{
  ℕ, ◌≡◌, refl, sym, ap, ◌∙◌, Bool, true, false, not, ◌&&◌, ◌||◌, List, [], ◌∷◌, ◌++◌, ok, and_then,
  arith, All, codes, same_text,
}
use yohira.Routing.Patterns.{
  RoutePatternPart, RoutePatternParameterKind, literal, parameter, separator, standard, optional,
  part_text, segment_text, create_separator_part, is_optional, is_parameter, is_catch_all,
}
use yohira.Routing.Patterns.Parser.{
  any_catch_all, separate, separate_optional, no_consecutive, is_segment_valid, catch_all_last,
  is_all_valid,
}
use yohira.Routing.Patterns.Parser.Scanning.{IsPlainText}
use yohira.Routing.Patterns.Parser.Parameters.{
  IsKind, plain, question_mark, one_star, two_stars, IsNameChar,
}
use yohira.Routing.Patterns.Parser.Segments.{
  IsPart, a_literal, a_parameter, Alternates, last_part, next_part, AreFresh, names_after,
}

-- Texts that are not empty, for literals and for names.
pub data IsLiteral : List ℕ → Type 0 where
  text : (c : ℕ) (cs : List ℕ) → IsPlainText (c ∷ cs) → IsLiteral (c ∷ cs)

pub data IsName : List ℕ → Type 0 where
  name : (c : ℕ) (cs : List ℕ) → All IsNameChar (c ∷ cs) → IsName (c ∷ cs)

abbrev pub dot : RoutePatternPart
dot = separator (codes ".")

-- Literals and standard parameters by turns; the last one may be optional, behind a separator.
pub data IsMixed : List RoutePatternPart → Type 0 where
  end_literal : (t : List ℕ) → IsLiteral t → IsMixed (literal t ∷ [])
  end_parameter : (n : List ℕ) → IsName n → IsMixed (parameter n standard true ∷ [])
  end_optional : (n : List ℕ) → IsName n → IsMixed (dot ∷ parameter n optional true ∷ [])
  literal_then :
      (t n : List ℕ) (ps : List RoutePatternPart)
      → IsLiteral t
      → IsMixed (parameter n standard true ∷ ps)
      → IsMixed (literal t ∷ parameter n standard true ∷ ps)
  then_literal :
      (n t : List ℕ) (ps : List RoutePatternPart)
      → IsName n
      → IsMixed (literal t ∷ ps)
      → IsMixed (parameter n standard true ∷ literal t ∷ ps)
  then_separator :
      (n : List ℕ) (ps : List RoutePatternPart)
      → IsName n
      → IsMixed (dot ∷ ps)
      → IsMixed (parameter n standard true ∷ dot ∷ ps)

-- A segment: parts by turns, or one parameter of any kind.
pub data IsSegment : List RoutePatternPart → Type 0 where
  mixed : (ps : List RoutePatternPart) → IsMixed ps → IsSegment ps
  alone :
      (n : List ℕ) (kind : RoutePatternParameterKind) (e : Bool)
      → IsName n
      → IsKind kind e
      → IsSegment (parameter n kind e ∷ [])

-- The segments of a pattern: only the last one may have a catch-all parameter.
pub data IsPattern : List (List RoutePatternPart) → Type 0 where
  no_segments : IsPattern []
  last_segment : (s : List RoutePatternPart) → IsSegment s → IsPattern (s ∷ [])
  next_segment :
      (s t : List RoutePatternPart) (ss : List (List RoutePatternPart))
      → IsSegment s
      → any_catch_all s ≡ false
      → IsPattern (t ∷ ss)
      → IsPattern (s ∷ t ∷ ss)

-- The parts as they are read, ahead of the check that finds the separators.
abbrev pub as_read : RoutePatternPart → RoutePatternPart
as_read (separator content) = literal content
as_read part = part

abbrev pub all_read : List RoutePatternPart → List RoutePatternPart
all_read [] = []
all_read (p ∷ ps) = as_read p ∷ all_read ps

pub segment_text-all_read :
    (ps : List RoutePatternPart) → segment_text (all_read ps) ≡ segment_text ps
unfolding segment_text part_text
segment_text-all_read [] = refl
segment_text-all_read (literal content ∷ ps) = ap (λ t. content ++ t) (segment_text-all_read ps)
segment_text-all_read (separator content ∷ ps) = ap (λ t. content ++ t) (segment_text-all_read ps)
segment_text-all_read (parameter n kind e ∷ ps) =
    ap (λ t. part_text (parameter n kind e) ++ t) (segment_text-all_read ps)

module _ (lower : List ℕ → List ℕ) where
  pub names_after-all_read :
      (names : List (List ℕ)) (ps : List RoutePatternPart)
      → names_after lower names (all_read ps) ≡ names_after lower names ps
  names_after-all_read names [] = refl
  names_after-all_read names (literal content ∷ ps) = names_after-all_read names ps
  names_after-all_read names (separator content ∷ ps) = names_after-all_read names ps
  names_after-all_read names (parameter n kind e ∷ ps) = names_after-all_read (lower n ∷ names) ps

  pub all_read-AreFresh :
      (names : List (List ℕ)) (ps : List RoutePatternPart)
      → AreFresh lower names ps
      → AreFresh lower names (all_read ps)
  all_read-AreFresh names [] h = tt
  all_read-AreFresh names (literal content ∷ ps) h = all_read-AreFresh names ps h
  all_read-AreFresh names (separator content ∷ ps) h = all_read-AreFresh names ps h
  all_read-AreFresh names (parameter n kind e ∷ ps) h =
      (h.0, all_read-AreFresh (lower n ∷ names) ps h.1)

literal-IsPart : (t : List ℕ) → IsLiteral t → IsPart (literal t)
literal-IsPart _ (text c cs h) = a_literal c cs h

parameter-IsPart :
    (n : List ℕ) (kind : RoutePatternParameterKind) (e : Bool)
    → IsName n
    → IsKind kind e
    → IsPart (parameter n kind e)
parameter-IsPart _ kind e (name c cs h) k = a_parameter c cs kind e h k

dot-IsPart : IsPart (literal (codes "."))
dot-IsPart = a_literal b'.' [] ((refl, refl, refl, refl), tt)

mixed-Alternates : (ps : List RoutePatternPart) → IsMixed ps → Alternates (all_read ps)
mixed-Alternates _ (end_literal t h) = last_part _ (literal-IsPart t h)
mixed-Alternates _ (end_parameter n h) = last_part _ (parameter-IsPart n standard true h plain)
mixed-Alternates _ (end_optional n h) =
    next_part _ _ [] dot-IsPart refl
      (last_part _ (parameter-IsPart n optional true h question_mark))
mixed-Alternates _ (literal_then t n ps h w) =
    next_part _ _ _ (literal-IsPart t h) refl (mixed-Alternates _ w)
mixed-Alternates _ (then_literal n t ps h w) =
    next_part _ _ _ (parameter-IsPart n standard true h plain) refl (mixed-Alternates _ w)
mixed-Alternates _ (then_separator n ps h w) =
    next_part _ _ _ (parameter-IsPart n standard true h plain) refl (mixed-Alternates _ w)

pub segment-Alternates : (ps : List RoutePatternPart) → IsSegment ps → Alternates (all_read ps)
segment-Alternates ps (mixed _ w) = mixed-Alternates ps w
segment-Alternates _ (alone n kind e h k) = last_part _ (parameter-IsPart n kind e h k)

mixed_no_catch_all : (ps : List RoutePatternPart) → IsMixed ps → any_catch_all (all_read ps) ≡ false
unfolding any_catch_all
mixed_no_catch_all _ (end_literal t h) = refl
mixed_no_catch_all _ (end_parameter n h) = refl
mixed_no_catch_all _ (end_optional n h) = refl
mixed_no_catch_all _ (literal_then t n ps h w) = mixed_no_catch_all _ w
mixed_no_catch_all _ (then_literal n t ps h w) = mixed_no_catch_all _ w
mixed_no_catch_all _ (then_separator n ps h w) = mixed_no_catch_all _ w

separate_step :
    (p q : RoutePatternPart) (rest qs : List RoutePatternPart)
    → is_optional p ≡ false
    → is_optional q ≡ false
    → separate_optional (q ∷ rest) ≡ ok qs
    → separate_optional (p ∷ q ∷ rest) ≡ ok (p ∷ qs)
unfolding separate_optional
separate_step p q [] qs h k e = rw (h, k) (ap (λ r. and_then r (λ qs. ok (p ∷ qs))) e)
separate_step p q (r ∷ rest) qs h k e = rw (h, e) refl

mixed_separated :
    (ps : List RoutePatternPart) → IsMixed ps → separate_optional (all_read ps) ≡ ok ps
unfolding separate_optional separate create_separator_part same_text
mixed_separated _ (end_literal t h) = refl
mixed_separated _ (end_parameter n h) = refl
mixed_separated _ (end_optional n h) = refl
mixed_separated _ (literal_then t n ps h w) =
    separate_step (literal t) (parameter n standard true) (all_read ps) _ refl refl
      (mixed_separated _ w)
mixed_separated _ (then_literal n t ps h w) =
    separate_step (parameter n standard true) (literal t) (all_read ps) _ refl refl
      (mixed_separated _ w)
mixed_separated _ (then_separator n ps h w) =
    separate_step (parameter n standard true) (literal (codes ".")) (all_read ps) _ refl refl
      (mixed_separated _ w)

abbrev starts_with_parameter : List RoutePatternPart → Bool
starts_with_parameter [] = false
starts_with_parameter (p ∷ ps) = is_parameter p

mixed_not_consecutive :
    (last : Bool) (ps : List RoutePatternPart)
    → IsMixed ps
    → no_consecutive (last && not (starts_with_parameter ps)) ps ≡ true
unfolding no_consecutive
mixed_not_consecutive last _ (end_literal t h) = refl
mixed_not_consecutive true _ (end_parameter n h) = refl
mixed_not_consecutive false _ (end_parameter n h) = refl
mixed_not_consecutive last _ (end_optional n h) = refl
mixed_not_consecutive last _ (literal_then t n ps h w) = mixed_not_consecutive false _ w
mixed_not_consecutive true _ (then_literal n t ps h w) = mixed_not_consecutive true _ w
mixed_not_consecutive false _ (then_literal n t ps h w) = mixed_not_consecutive true _ w
mixed_not_consecutive true _ (then_separator n ps h w) = mixed_not_consecutive true _ w
mixed_not_consecutive false _ (then_separator n ps h w) = mixed_not_consecutive true _ w

-- isSegmentValid finds the separators, and nothing to refuse.
pub is_segment_valid-all_read :
    (ps : List RoutePatternPart) → IsSegment ps → is_segment_valid (all_read ps) ≡ ok ps
unfolding is_segment_valid any_catch_all separate_optional no_consecutive
is_segment_valid-all_read ps (mixed _ w) =
    rw (mixed_no_catch_all ps w, mixed_separated ps w, mixed_not_consecutive false ps w) refl
is_segment_valid-all_read _ (alone n _ _ h plain) = refl
is_segment_valid-all_read _ (alone n _ _ h question_mark) = refl
is_segment_valid-all_read _ (alone n _ _ h one_star) = refl
is_segment_valid-all_read _ (alone n _ _ h two_stars) = refl

catch_all_last-none :
    (ps : List RoutePatternPart) (last : Bool)
    → any_catch_all ps ≡ false
    → catch_all_last ps last ≡ true
unfolding any_catch_all catch_all_last
catch_all_last-none [] last h = refl
catch_all_last-none (p ∷ []) last h = ground (arith, h)
catch_all_last-none (p ∷ q ∷ ps) last h =
    let here : is_catch_all p ≡ false = ground (arith, h) in
    let others : any_catch_all (q ∷ ps) ≡ false = ground (arith, h) in
    rw here (catch_all_last-none (q ∷ ps) last others)

any_catch_all-all_read :
    (ps : List RoutePatternPart) → any_catch_all (all_read ps) ≡ any_catch_all ps
unfolding any_catch_all
any_catch_all-all_read [] = refl
any_catch_all-all_read (literal content ∷ ps) = any_catch_all-all_read ps
any_catch_all-all_read (separator content ∷ ps) = any_catch_all-all_read ps
any_catch_all-all_read (parameter n kind e ∷ ps) =
    ap (λ b. is_catch_all (parameter n kind e) || b) (any_catch_all-all_read ps)

catch_all_last-segment : (ps : List RoutePatternPart) → IsSegment ps → catch_all_last ps true ≡ true
unfolding catch_all_last
catch_all_last-segment ps (mixed _ w) =
    catch_all_last-none ps true (sym (any_catch_all-all_read ps) ∙ mixed_no_catch_all ps w)
catch_all_last-segment _ (alone n _ _ h plain) = refl
catch_all_last-segment _ (alone n _ _ h question_mark) = refl
catch_all_last-segment _ (alone n _ _ h one_star) = refl
catch_all_last-segment _ (alone n _ _ h two_stars) = refl

pub pattern_valid : (ss : List (List RoutePatternPart)) → IsPattern ss → is_all_valid ss ≡ true
unfolding is_all_valid
pattern_valid _ no_segments = refl
pattern_valid _ (last_segment s h) = catch_all_last-segment s h
pattern_valid _ (next_segment s t ss h no_catch_all ws) =
    rw (catch_all_last-none s false no_catch_all) (pattern_valid (t ∷ ss) ws)
