-- ===== src/HttpHeaders/Directives/HeaderNames.antt =====
-- CacheControlHeaderValue.trySetOptionalTokenList reads what appendValues writes.
use yohira.Common.{
  ℕ, zero, suc, ◌+◌, ◌-◌, ◌≤◌, ◌<◌, ◌≡◌, refl, sym, ap, ◌∙◌, Bool, true, false, List, [], ◌∷◌, ◌++◌,
  append_assoc, append-nil, ltb, ◌==◌, length, length-append, arith, none, some, All, ok, includes,
  subst,
}
use yohira.HttpHeaders.Rules.{at_index, quote, sp}
use yohira.HttpHeaders.Rules.Positions.{
  At, At-advance, At-next, At-get_or, At-slice, IsToken, Stops, is_token_char-ne,
  get_token_length-At,
}
use yohira.HttpHeaders.Rules.Quoted.{IsPlain}
use yohira.HttpHeaders.Utilities.{comma, get_next_non_empty_or_whitespace_index}
use yohira.HttpHeaders.Utilities.Positions.{next_index-content, next_index-separator}
use yohira.HttpHeaders.NameValue.Attempts.{token-IsContent}
use yohira.HttpHeaders.NameValue.Items.{IsValue, quoted}
use yohira.HttpHeaders.Directives.{token_list, try_set_optional_token_list}
use yohira.HttpHeaders.Directives.Printing.{more_names, headers_value}

abbrev pub IsName : List ℕ → Type 0
IsName h = IsToken h × (0 < length h)

abbrev pub AllNames : List (List ℕ) → Type 0
AllNames = All IsName

more_names-Stops : (hs : List (List ℕ)) → Stops (more_names hs ++ quote ∷ [])
unfolding includes
more_names-Stops [] = refl
more_names-Stops (h ∷ hs) = refl

length-more_names : (hs : List (List ℕ)) → length hs ≤ length (more_names hs)
length-more_names [] = omega arith
length-more_names (h ∷ hs) = omega (arith, length-more_names hs, length-append h (more_names hs))

module _ (input : List ℕ) (max : ℕ) where
  token_list-turn :
      (f s i : ℕ) (b : Bool) (tokens : List (List ℕ)) (h rest : List ℕ)
      → s < max
      → i < max
      → get_next_non_empty_or_whitespace_index input s true ≡ ok (i, b)
      → IsName h
      → Stops rest
      → At input i (h ++ rest)
      → token_list (suc f) input max s tokens
        ≡ token_list f input max (i + length h) (tokens ++ h ∷ [])
  unfolding token_list
  token_list-turn f s i b tokens h rest lt lt' e name stops a =
      let goes_on : ltb s max ≡ true = ground arith in
      let before : (i == max) ≡ false = ground arith in
      let some_token : (length h == 0) ≡ false = ground (arith, name.1) in
      rw
        (
          goes_on,
          e,
          get_token_length-At input i h rest a name.0 stops,
          before,
          some_token,
          At-slice h rest a,
        )
        refl

  token_list-end :
      (f : ℕ) (tokens : List (List ℕ)) → token_list (suc f) input max max tokens ≡ ok (some tokens)
  unfolding token_list
  token_list-end f tokens = let ends : ltb max max ≡ false = ground arith in rw ends refl

  token_list-At :
      (f s : ℕ) (tokens hs : List (List ℕ))
      → suc max ≡ length input
      → length hs < f
      → AllNames hs
      → At input s (more_names hs ++ quote ∷ [])
      → token_list f input max s tokens ≡ ok (some (tokens ++ hs))
  token_list-At zero s tokens hs m lt names a = elim lt [ ]
  token_list-At (suc f) s tokens [] m lt names a =
      let here : s ≡ max = omega (arith, m, a.within) in
      ap (λ s. token_list (suc f) input max s tokens) here
      ∙ token_list-end f tokens
      ∙ ap (λ l. ok (some l)) (sym (append-nil tokens))
  token_list-At (suc f) s tokens (h ∷ hs) m lt names a' =
      let rest = more_names hs ++ quote ∷ [] in
      let a =
        subst (λ x. At input s (comma ∷ sp ∷ x)) (append_assoc h (more_names hs) (quote ∷ [])) a' in
      let content = token-IsContent h rest names.0.0 names.0.1 in
      let b = At-next input (s + 1) sp (h ++ rest) (At-next input s comma (sp ∷ (h ++ rest)) a) in
      let i = s + 1 + 1 in
      let long = length-append h rest in
      let long' = length-append (more_names hs) (quote ∷ []) in
      token_list-turn f s i true tokens h rest (omega (arith, m, b.within, long, long', names.0.1))
        (omega (arith, m, b.within, long, long', names.0.1))
        (next_index-separator input s (h ++ rest) a content) names.0 (more_names-Stops hs) b
      ∙ token_list-At f (i + length h) (tokens ++ h ∷ []) hs m (omega (arith, lt)) names.1
          (At-advance input i h rest b)
      ∙ ap (λ l. ok (some l)) (append_assoc tokens (h ∷ []) hs)

-- The loop behind the first quote.
token_list-names :
    (input : List ℕ) (f max : ℕ) (h : List ℕ) (hs : List (List ℕ))
    → suc max ≡ length input
    → length hs < f
    → AllNames (h ∷ hs)
    → At input 1 ((h ++ more_names hs) ++ quote ∷ [])
    → token_list (suc f) input max 1 [] ≡ ok (some (h ∷ hs))
token_list-names input f max h hs m lt names a' =
    let rest = more_names hs ++ quote ∷ [] in
    let a = subst (λ x. At input 1 x) (append_assoc h (more_names hs) (quote ∷ [])) a' in
    let long = length-append h rest in
    let long' = length-append (more_names hs) (quote ∷ []) in
    token_list-turn input max f 1 1 false [] h rest
      (omega (arith, m, a.within, long, long', names.0.1))
      (omega (arith, m, a.within, long, long', names.0.1))
      (next_index-content input 1 true (h ++ rest) a (token-IsContent h rest names.0.0 names.0.1))
      names.0 (more_names-Stops hs) a
    ∙ token_list-At input max f (1 + length h) (h ∷ []) hs m lt names.1
        (At-advance input 1 h rest a)

-- A list of names between quotes, into an empty destination.
pub try_set_optional_token_list-names :
    (h : List ℕ) (hs : List (List ℕ))
    → AllNames (h ∷ hs)
    → try_set_optional_token_list (headers_value (some (h ∷ hs))) none ≡ ok (some (some (h ∷ hs)))
unfolding try_set_optional_token_list
try_set_optional_token_list-names h hs names =
    let body = h ++ more_names hs in
    let input = quote ∷ body ++ quote ∷ [] in
    let max = length input - 1 in
    let long = length-append body (quote ∷ []) in
    let long' = length-append h (more_names hs) in
    let a : At input 0 input = record { goes_on = refl; within = omega arith } in
    let b = At-next input 0 quote (body ++ quote ∷ []) a in
    let c = At-advance input 1 body (quote ∷ []) b in
    let same : 1 + length body ≡ max = omega (arith, long) in
    let last : at_index input max ≡ quote = ap (at_index input) (sym same) ∙ At-get_or quote [] c in
    let enough : ltb (length input) 3 ≡ false = ground (arith, long, long', names.0.1) in
    let fuel = length-more_names hs in
    let found : (suc (length hs) == 0) ≡ false = ground arith in
    rw
      (
        enough,
        last,
        token_list-names input (length (body ++ quote ∷ [])) max h hs (omega arith)
            (omega (arith, fuel, long, long')) names b,
        found,
      )
      refl

IsPlain-append : (xs ys : List ℕ) → IsPlain xs → IsPlain ys → IsPlain (xs ++ ys)
IsPlain-append [] ys p q = q
IsPlain-append (x ∷ xs) ys p q = (p.0, IsPlain-append xs ys p.1 q)

token-IsPlain : (ts : List ℕ) → IsToken ts → IsPlain ts
unfolding includes
token-IsPlain [] h = tt
token-IsPlain (t ∷ ts) h =
    ((is_token_char-ne t 34 h.0 refl, is_token_char-ne t 92 h.0 refl), token-IsPlain ts h.1)

more_names-IsPlain : (hs : List (List ℕ)) → AllNames hs → IsPlain (more_names hs)
more_names-IsPlain [] p = tt
more_names-IsPlain (h ∷ hs) p = (
  (refl, refl),
  (
    (refl, refl),
    IsPlain-append h (more_names hs) (token-IsPlain h p.0.0) (more_names-IsPlain hs p.1),
  ),
)

-- Such a list is a value that parses.
pub names-IsValue :
    (h : List ℕ) (hs : List (List ℕ))
    → AllNames (h ∷ hs)
    → IsValue (quote ∷ (h ++ more_names hs) ++ quote ∷ [])
names-IsValue h hs p =
    quoted (h ++ more_names hs)
      (IsPlain-append h (more_names hs) (token-IsPlain h p.0.0) (more_names-IsPlain hs p.1))
