-- ===== src/Routing/Patterns/Parser/Parameters.antt =====
-- RouteParameterParser.ts and parseParameter at a printed parameter.
use yohira.Common.{
  ℕ, suc, ◌+◌, ◌-◌, ◌≡◌, refl, sym, ap, ◌∙◌, Bool, true, false, ◌&&◌, List, [], ◌∷◌, ◌++◌,
  append_assoc, append-nil, ◌==◌, length, length-append, slice, ok, arith, All, includes, At,
  At-next, At-get_or, At-slice, codes, same_text, subst,
}
use yohira.Routing.Patterns.{
  RoutePatternParameterKind, parameter, standard, optional, catch_all, part_text, stars, question,
  parameter_name, starts_with, last_is, parse_route_parameter,
}
use yohira.Routing.Patterns.Parser.{
  current_is, has_any, invalid_parameter_name_chars, member, is_valid_parameter_name,
  parse_parameter,
}
use yohira.Routing.Patterns.Parser.Scanning.{current_is-At, parameter_end-At, NoBraces, decode-same}

-- A character of a parameter's name that starts nothing else.
abbrev pub IsNameChar : ℕ → Type 0
IsNameChar c =
    (((c == b'/') ≡ false) × ((c == b'{') ≡ false) × ((c == b'}') ≡ false))
    × (((c == b'?') ≡ false) × ((c == b'*') ≡ false))
    × (((c == b':') ≡ false) × ((c == b'=') ≡ false))

-- The kinds that a parameter is printed with.
pub data IsKind : RoutePatternParameterKind → Bool → Type 0 where
  plain : IsKind standard true
  question_mark : IsKind optional true
  one_star : IsKind catch_all true
  two_stars : IsKind catch_all false

-- The loop of parseRouteParameter over a name.
parameter_name-At :
    (text : List ℕ) (start i c : ℕ) (name tail : List ℕ)
    → All IsNameChar (c ∷ name)
    → At text i (c ∷ name ++ tail)
    → parameter_name (suc (length name)) text start i ≡ slice text start (i + suc (length name))
unfolding parameter_name
parameter_name-At text start i c [] tail h a = rw (At-get_or c tail a, h.0.2.0, h.0.2.1) refl
parameter_name-At text start i c (d ∷ name) tail h a =
    let more : (suc (length name) == 0) ≡ false = ground arith in
    let same : i + 1 + suc (length name) ≡ i + suc (suc (length name)) = omega arith in
    rw (At-get_or c (d ∷ name ++ tail) a, h.0.2.0, h.0.2.1, more)
      (parameter_name-At text start (i + 1) d name tail h.1 (At-next text i c (d ∷ name ++ tail) a)
        ∙ ap (slice text start) same)

-- The same, as parseRouteParameter calls it.
name-At :
    (text : List ℕ) (start end c : ℕ) (name tail : List ℕ)
    → All IsNameChar (c ∷ name)
    → At text start (c ∷ name ++ tail)
    → end ≡ start + suc (length name)
    → parameter_name (end - start) text start start ≡ c ∷ name
name-At text start end c name tail h a e =
    let size : end - start ≡ suc (length name) = omega (arith, e) in
    ap (λ k. parameter_name k text start start) size
    ∙ parameter_name-At text start start c name tail h a
    ∙ At-slice (c ∷ name) tail a

pub At-whole : (text : List ℕ) → At text 0 text
At-whole text = record { goes_on = refl; within = omega arith }

last_is-append : (d x : ℕ) (xs : List ℕ) (y : ℕ) → last_is d (x ∷ xs ++ y ∷ []) ≡ (y == d)
last_is-append d x [] y = refl
last_is-append d x (z ∷ xs) y = last_is-append d z xs y

last_is-name : (c : ℕ) (name : List ℕ) → All IsNameChar (c ∷ name) → last_is b'?' (c ∷ name) ≡ false
last_is-name c [] h = h.0.1.0
last_is-name c (d ∷ name) h = last_is-name d name h.1

last_is-inner :
    (c : ℕ) (name : List ℕ) → All IsNameChar (c ∷ name) → last_is b'?' (c ∷ name ++ []) ≡ false
last_is-inner c name h = ap (λ t. last_is b'?' (c ∷ t)) (append-nil name) ∙ last_is-name c name h

-- What stands between the braces.
pub inner : List ℕ → RoutePatternParameterKind → Bool → List ℕ
inner name kind encode_slashes = stars kind encode_slashes ++ (name ++ question kind)

-- parseRouteParameter at what a parameter is printed as.
parse_route_parameter-inner :
    (c : ℕ) (name : List ℕ) (kind : RoutePatternParameterKind) (e : Bool)
    → IsKind kind e
    → All IsNameChar (c ∷ name)
    → parse_route_parameter (inner (c ∷ name) kind e) ≡ parameter (c ∷ name) kind e
unfolding inner parse_route_parameter
parse_route_parameter-inner c name _ _ plain h =
    let text = c ∷ name ++ [] in
    rw (h.0.1.1, last_is-inner c name h)
      (ap (λ n. parameter n standard true)
        (name-At text 0 (length text) c name [] h (At-whole text)
          (omega (arith, length-append name []))))
parse_route_parameter-inner c name _ _ question_mark h =
    let text = c ∷ name ++ b'?' ∷ [] in
    rw (h.0.1.1, last_is-append b'?' c name b'?')
      (ap (λ n. parameter n optional true)
        (name-At text 0 (length text - 1) c name (b'?' ∷ []) h (At-whole text)
          (omega (arith, length-append name (b'?' ∷ [])))))
parse_route_parameter-inner c name _ _ one_star h =
    let text = b'*' ∷ c ∷ name ++ [] in
    rw (h.0.1.1, last_is-inner c name h)
      (ap (λ n. parameter n catch_all true)
        (name-At text 1 (length text) c name [] h (At-next text 0 b'*' _ (At-whole text))
          (omega (arith, length-append name []))))
parse_route_parameter-inner c name _ _ two_stars h =
    let text = b'*' ∷ b'*' ∷ c ∷ name ++ [] in
    rw (last_is-inner c name h) (
      ap (λ n. parameter n catch_all false)
        (name-At text 2 (length text) c name [] h
          (At-next text 1 b'*' _ (At-next text 0 b'*' _ (At-whole text)))
          (omega (arith, length-append name []))))

NoBraces-append : (xs ys : List ℕ) → NoBraces xs → NoBraces ys → NoBraces (xs ++ ys)
NoBraces-append [] ys p q = q
NoBraces-append (x ∷ xs) ys p q = (p.0, NoBraces-append xs ys p.1 q)

name-NoBraces : (name : List ℕ) → All IsNameChar name → NoBraces name
name-NoBraces [] h = tt
name-NoBraces (c ∷ name) h = ((h.0.0.1, h.0.0.2), name-NoBraces name h.1)

inner-NoBraces :
    (name : List ℕ) (kind : RoutePatternParameterKind) (e : Bool)
    → IsKind kind e
    → All IsNameChar name
    → NoBraces (inner name kind e)
unfolding inner
inner-NoBraces name _ _ plain h = NoBraces-append name [] (name-NoBraces name h) tt
inner-NoBraces name _ _ question_mark h =
    NoBraces-append name (b'?' ∷ []) (name-NoBraces name h) ((refl, refl), tt)
inner-NoBraces name _ _ one_star h =
    ((refl, refl), NoBraces-append name [] (name-NoBraces name h) tt)
inner-NoBraces name _ _ two_stars h =
    ((refl, refl), ((refl, refl), NoBraces-append name [] (name-NoBraces name h) tt))

name-valid :
    (name : List ℕ) → All IsNameChar name → has_any name invalid_parameter_name_chars ≡ false
unfolding includes
name-valid name h =
    rw
      (
        none_of b'/' (λ c h. h.0.0),
        none_of b'{' (λ c h. h.0.1),
        none_of b'}' (λ c h. h.0.2),
        none_of b'?' (λ c h. h.1.0),
        none_of b'*' (λ c h. h.1.1),
      )
      refl
  where
    without :
        (d : ℕ)
        → ((c : ℕ) → IsNameChar c → (c == d) ≡ false)
        → (name : List ℕ) → All IsNameChar name
        → includes name d ≡ false
    without d f [] h = refl
    without d f (c ∷ name) h = rw (f c h.0) (without d f name h.1)

    none_of : (d : ℕ) → ((c : ℕ) → IsNameChar c → (c == d) ≡ false) → includes name d ≡ false
    none_of d f = without d f name h

-- Which tests of parseParameter a printed parameter passes.
inner-passes :
    (c : ℕ) (name : List ℕ) (kind : RoutePatternParameterKind) (e : Bool)
    → IsKind kind e
    → All IsNameChar (c ∷ name)
    → (starts_with (inner (c ∷ name) kind e) (codes "*") && last_is b'?' (inner (c ∷ name) kind e))
      ≡ false
unfolding inner
inner-passes c name _ _ plain h = rw h.0.1.1 refl
inner-passes c name _ _ question_mark h = rw h.0.1.1 refl
inner-passes c name _ _ one_star h = last_is-inner c name h
inner-passes c name _ _ two_stars h = last_is-inner c name h

pub first_inner :
    (c : ℕ) (name : List ℕ) (kind : RoutePatternParameterKind) (e : Bool)
    → IsKind kind e
    → All IsNameChar (c ∷ name)
    → (x : ℕ) × (xs : List ℕ) × (inner (c ∷ name) kind e ≡ x ∷ xs)
      × ((x == b'{') ≡ false)
      × ((x == b'}') ≡ false)
unfolding inner
first_inner c name _ _ plain h = (c, name ++ [], refl, h.0.0.1, h.0.0.2)
first_inner c name _ _ question_mark h = (c, name ++ b'?' ∷ [], refl, h.0.0.1, h.0.0.2)
first_inner c name _ _ one_star h = (b'*', c ∷ name ++ [], refl, refl, refl)
first_inner c name _ _ two_stars h = (b'*', b'*' ∷ c ∷ name ++ [], refl, refl, refl)

pub part_text-parameter :
    (name : List ℕ) (kind : RoutePatternParameterKind) (e : Bool)
    → part_text (parameter name kind e) ≡ b'{' ∷ inner name kind e ++ b'}' ∷ []
unfolding part_text inner
part_text-parameter name kind e = simp append_assoc

not_empty :
    (x : ℕ) (xs : List ℕ)
    → (x == b'}') ≡ false
    → same_text (b'{' ∷ x ∷ xs ++ b'}' ∷ []) (codes "{}") ≡ false
unfolding same_text
not_empty x xs h = rw h refl

module _ (lower : List ℕ → List ℕ) (template : List ℕ) (names : List (List ℕ)) where
  -- parseParameter at a printed parameter.
  pub parse_parameter-At :
      (i c : ℕ) (name : List ℕ) (kind : RoutePatternParameterKind) (e : Bool) (rest : List ℕ)
      → IsKind kind e
      → All IsNameChar (c ∷ name)
      → member names (lower (c ∷ name)) ≡ false
      → At template i (b'{' ∷ inner (c ∷ name) kind e ++ b'}' ∷ rest)
      → current_is template (i + 1 + length (inner (c ∷ name) kind e) + 1) b'}' ≡ false
      → parse_parameter lower template i names
        ≡ ok (
          parameter (c ∷ name) kind e,
          i + 1 + length (inner (c ∷ name) kind e) + 1,
          lower (c ∷ name) ∷ names,
        )
  unfolding parse_parameter is_valid_parameter_name
  parse_parameter-At i c name kind e rest k h fresh a stop =
      let body = inner (c ∷ name) kind e in
      let next = At-next template i b'{' (body ++ b'}' ∷ rest) a in
      let behind = i + 1 + length body + 1 in
      let text = b'{' ∷ body ++ b'}' ∷ [] in
      let long = length-append body (b'}' ∷ rest) in
      let long' = length-append body (b'}' ∷ []) in
      let end =
        parameter_end-At template (suc (length template)) (i + 1) body rest
          (omega (arith, next.within, long)) (inner-NoBraces (c ∷ name) kind e k h) stop next in
      let whole : At template i (text ++ rest) =
        subst (λ t. At template i (b'{' ∷ t)) (sym (append_assoc body (b'}' ∷ []) rest)) a in
      let size : behind ≡ i + length text = omega (arith, long') in
      let cut : slice template i behind ≡ text =
        ap (slice template i) size ∙ At-slice text rest whole in
      let last : length text - 1 ≡ 1 + length body = omega (arith, long') in
      let inside : slice text 1 (length text - 1) ≡ body =
        ap (slice text 1) last
        ∙ At-slice body (b'}' ∷ []) (At-next text 0 b'{' (body ++ b'}' ∷ []) (At-whole text)) in
      let named : (suc (length name) == 0) ≡ false = ground arith in
      let (x, xs, first, _, other) = first_inner c name kind e k h in
      let filled : same_text text (codes "{}") ≡ false =
        ap (λ b. same_text (b'{' ∷ b ++ b'}' ∷ []) (codes "{}")) first ∙ not_empty x xs other in
      rw
        (
          current_is-At template i b'{' b'{' (body ++ b'}' ∷ rest) a,
          end,
          cut,
          inside,
          decode-same body (inner-NoBraces (c ∷ name) kind e k h),
          filled,
          inner-passes c name kind e k h,
          parse_route_parameter-inner c name kind e k h,
          named,
          name-valid (c ∷ name) h,
          fresh,
        )
        refl
