-- ===== src/HttpHeaders/Directives/RoundTrip.antt =====
-- CacheControlHeaderValue.parse after toString.
use yohira.Common.{
  ℕ, suc, ◌+◌, ◌≤◌, ◌<◌, ◌≡◌, refl, ap, Bool, true, false, ◌&&◌, List, [], ◌∷◌, ◌++◌, append-nil,
  ltb, leb, ◌==◌, if◌then◌else◌, length, length-append, arith, Option, none, some, ok, err,
  includes, subst, ℤ,
}
use yohira.Base.TimeSpan.{TimeSpan, from_seconds, total_seconds-from_seconds}
use yohira.HttpHeaders.Rules.{no_cache_directives}
use yohira.HttpHeaders.Rules.Positions.{At, At-advance, IsToken, is_token_char}
use yohira.HttpHeaders.Utilities.{
  NumberText, try_parse_text, try_parse_value, parse_value, parse_at, finish_value,
}
use yohira.HttpHeaders.Utilities.Positions.{IsContent, next_index-content}
use yohira.HttpHeaders.NameValue.{NameValueHeaderValue, item_text}
use yohira.HttpHeaders.NameValue.Items.{IsValue, alone, valued, token}
use yohira.HttpHeaders.NameValue.Attempts.{item_text-pos, item_text-IsContent}
use yohira.HttpHeaders.CacheControl.{
  CacheControl, new_cache_control, seconds_text, to_string, public_string, private_string,
  max_age_string, shared_max_age_string, no_cache_string, no_store_string, max_stale_string,
  min_fresh_string, no_transform_string, only_if_cached_string, must_revalidate_string,
  proxy_revalidate_string,
}
use yohira.HttpHeaders.Directives.{parse, get_cache_control_length, try_set_cache_control_values}
use yohira.HttpHeaders.Directives.Reading.{more_items, AllPrintable, name_values-At}
use yohira.HttpHeaders.Directives.Printing.{
  flag_items, headers_items, time_items, limit_items, extension_items, items, IsWritten,
  to_string-items, to_string_empty,
}
use yohira.HttpHeaders.Directives.HeaderNames.{names-IsValue}
use yohira.HttpHeaders.Directives.Setting.{
  IsExact, IsSafe, IsTime, IsHeaders, IsLimit, IsExtensions, IsWellFormed, unset, seconds,
  no_headers, headers, no_limit, limit, no_extensions, extensions, set-items,
}

All-append :
    (xs ys : List NameValueHeaderValue)
    → AllPrintable xs
    → AllPrintable ys
    → AllPrintable (xs ++ ys)
All-append [] ys p q = q
All-append (x ∷ xs) ys p q = (p.0, All-append xs ys p.1 q)

all_token : List ℕ → Bool
all_token [] = true
all_token (c ∷ cs) = is_token_char c && all_token cs

all_token-IsToken : (n : List ℕ) → all_token n ≡ true → IsToken n
unfolding all_token
all_token-IsToken [] h = tt
all_token-IsToken (c ∷ cs) h = (ground (arith, h), all_token-IsToken cs (ground (arith, h)))

module _ (name : List ℕ) (is_token : IsToken name) (lt : 0 < length name) where
  flag_printable : (b : Bool) → AllPrintable (flag_items b name)
  flag_printable true = (alone name is_token lt, tt)
  flag_printable false = tt

  headers_printable :
      (b : Bool) (hs : Option (List (List ℕ)))
      → IsHeaders b hs
      → AllPrintable (headers_items b name hs)
  headers_printable true _ (no_headers _) = (alone name is_token lt, tt)
  headers_printable false _ (no_headers _) = tt
  headers_printable _ _ (headers n ns names) =
      (valued name _ is_token lt (names-IsValue n ns names), tt)

module _ (t : NumberText) (x : IsExact t) where
  seconds_text-from_seconds : (n : ℤ) → seconds_text t (from_seconds n) ≡ t.to_string n
  seconds_text-from_seconds n = ap t.to_string (total_seconds-from_seconds n)

  seconds-IsValue : (n : ℤ) → IsSafe n → IsValue (seconds_text t (from_seconds n))
  seconds-IsValue n safe =
      let (c, cs, e) = x.not_empty n safe in
      rw (seconds_text-from_seconds n)
        (token (t.to_string n) (x.written n safe) (omega (arith, ap length e)))

  time_printable :
      (name : List ℕ)
      → IsToken name
      → 0 < length name
      → (o : Option TimeSpan) → IsTime o
      → AllPrintable (time_items t name o)
  time_printable name h lt _ unset = tt
  time_printable name h lt _ (seconds n safe) = (valued name _ h lt (seconds-IsValue n safe), tt)

  limit_printable :
      (b : Bool) (o : Option TimeSpan) → IsLimit b o → AllPrintable (limit_items t b o)
  unfolding includes all_token
  limit_printable true _ (no_limit _) =
      (alone max_stale_string (all_token-IsToken max_stale_string refl) (omega arith), tt)
  limit_printable false _ (no_limit _) = tt
  limit_printable _ _ (limit n safe) = (
    valued max_stale_string _ (all_token-IsToken max_stale_string refl) (omega arith)
        (seconds-IsValue n safe),
    tt,
  )

  extensions_printable :
      (o : Option (List NameValueHeaderValue)) → IsExtensions o → AllPrintable (extension_items o)
  extensions_printable _ no_extensions = tt
  extensions_printable _ (extensions v vs p h) = p

  items_printable : (c : CacheControl) → IsWellFormed c → AllPrintable (items t c)
  unfolding includes all_token
  items_printable c w =
      let name = λ (n : List ℕ) (h : all_token n ≡ true). all_token-IsToken n h in
      All-append _ _
        (flag_printable no_store_string (name no_store_string refl) (omega arith) c.no_store)
        (All-append _ _
          (flag_printable no_transform_string (name no_transform_string refl) (omega arith)
            c.no_transform)
          (All-append _ _
            (flag_printable only_if_cached_string (name only_if_cached_string refl) (omega arith)
              c.only_if_cached)
            (All-append _ _
              (flag_printable public_string (name public_string refl) (omega arith) c.public)
              (All-append _ _
                (flag_printable must_revalidate_string (name must_revalidate_string refl)
                  (omega arith) c.must_revalidate)
                (All-append _ _
                  (flag_printable proxy_revalidate_string (name proxy_revalidate_string refl)
                    (omega arith) c.proxy_revalidate)
                  (All-append _ _
                    (headers_printable no_cache_string (name no_cache_string refl) (omega arith)
                      c.no_cache c.no_cache_headers w.no_cache_names)
                    (All-append _ _
                      (time_printable max_age_string (name max_age_string refl) (omega arith)
                        c.max_age w.age)
                      (All-append _ _
                        (time_printable shared_max_age_string (name shared_max_age_string refl)
                          (omega arith) c.shared_max_age w.shared_age)
                        (All-append _ _ (limit_printable c.max_stale c.max_stale_limit w.stale) (
                          All-append _ _
                            (time_printable min_fresh_string (name min_fresh_string refl)
                              (omega arith) c.min_fresh w.fresh)
                            (All-append _ _
                              (headers_printable private_string (name private_string refl)
                                (omega arith) c.private c.private_headers w.private_names)
                              (extensions_printable c.extensions w.others))))))))))))

  time-IsWritten : (o : Option TimeSpan) → IsTime o → IsWritten t o
  time-IsWritten _ unset = λ span e. ground arith
  time-IsWritten _ (seconds n safe) = λ span e.
      let (c, cs, p) = x.not_empty n safe in
      let same : span ≡ from_seconds n = ground arith in
      rw (same, seconds_text-from_seconds n, p) (omega arith)

  limit-IsWritten : (b : Bool) (o : Option TimeSpan) → IsLimit b o → IsWritten t o
  limit-IsWritten _ _ (no_limit _) = time-IsWritten none unset
  limit-IsWritten _ _ (limit n safe) = time-IsWritten _ (seconds n safe)

length-more_items : (vs : List NameValueHeaderValue) → length vs ≤ length (more_items vs)
length-more_items [] = omega arith
length-more_items (v ∷ vs) =
    omega (arith, length-more_items vs, length-append (item_text v) (more_items vs))

module _ (t : NumberText) (input : List ℕ) (c : CacheControl) where
  parse_whole :
      0 < length input
      → IsContent input
      → get_cache_control_length t input 0 ≡ ok (length input, some c)
      → parse t input ≡ ok c
  unfolding parse parse_value try_parse_value try_parse_text parse_at finish_value
  parse_whole lt content e =
      let start : At input 0 input = record { goes_on = refl; within = omega arith } in
      let whole : At input 0 (input ++ []) = rw (append-nil input) start in
      let end = At-advance input 0 input [] whole in
      let inside : ltb (length input) 0 ≡ false = ground arith in
      let some_input : (length input == 0) ≡ false = ground arith in
      let before : (0 == length input) ≡ false = ground arith in
      let stop : ltb (0 + length input) (length input) ≡ false = ground arith in
      rw
        (
          inside,
          some_input,
          before,
          next_index-content input 0 true input start content,
          before,
          e,
          some_input,
          next_index-content input (0 + length input) true [] end tt,
          stop,
        )
        refl

get_cache_control_length-items :
    (t : NumberText) (input : List ℕ) (c : CacheControl) (v : NameValueHeaderValue)
    (vs : List NameValueHeaderValue)
    → input ≡ item_text v ++ more_items vs
    → AllPrintable (v ∷ vs)
    → try_set_cache_control_values t new_cache_control (v ∷ vs) ≡ ok (some c)
    → get_cache_control_length t input 0 ≡ ok (length input, some c)
unfolding get_cache_control_length
get_cache_control_length-items t input c v vs e p h =
    let positive = item_text-pos v p.0 in
    let long = length-append (item_text v) (more_items vs) in
    let size = ap length e in
    let some_input : (length input == 0) ≡ false = ground (arith, size, long, positive) in
    let before : leb (length input) 0 ≡ false = ground (arith, size, long, positive) in
    let start : At input 0 (item_text v ++ more_items vs) = record {
      goes_on = e;
      within = omega (arith, size);
    } in
    let enough : length vs + 1 < suc (length input) =
      omega (arith, size, long, positive, length-more_items vs) in
    rw
      (
        some_input,
        before,
        name_values-At input (suc (length input)) 0 [] v vs enough p.0 p.1 start,
        h,
      )
      (ap (λ n. ok (n, some c)) (omega arith))

parse_empty : (t : NumberText) → parse t [] ≡ err no_cache_directives
unfolding parse parse_value try_parse_value try_parse_text
parse_empty t = refl

module _ (t : NumberText) (c : CacheControl) (x : IsExact t) (w : IsWellFormed c) where
  parse-items :
      (vs : List NameValueHeaderValue)
      → items t c ≡ vs
      → parse t (to_string t c)
        ≡ (if length (to_string t c) == 0 then err no_cache_directives else ok c)
  parse-items [] e =
      let text =
        to_string_empty t c (time-IsWritten t x _ w.age) (time-IsWritten t x _ w.shared_age)
          (limit-IsWritten t x _ _ w.stale) (time-IsWritten t x _ w.fresh) e in
      rw text (parse_empty t)
  parse-items (v ∷ vs) e =
      let p = subst AllPrintable e (items_printable t x c w) in
      let positive = item_text-pos v p.0 in
      let text =
        to_string-items t c v vs (time-IsWritten t x _ w.age) (time-IsWritten t x _ w.shared_age)
          (limit-IsWritten t x _ _ w.stale) (time-IsWritten t x _ w.fresh) e positive in
      let fill =
        subst (λ l. try_set_cache_control_values t new_cache_control l ≡ ok (some c)) e
          (set-items t c x w) in
      let long = length-append (item_text v) (more_items vs) in
      let some_text : (length (to_string t c) == 0) ≡ false =
        ground (arith, ap length text, long, positive) in
      let content : IsContent (to_string t c) =
        rw text (item_text-IsContent v (more_items vs) p.0) in
      rw some_text (
        parse_whole t (to_string t c) c (omega (arith, ap length text, long, positive)) content
          (get_cache_control_length-items t (to_string t c) c v vs text p fill))

-- For exact number texts and a well-formed header: parse reads what toString writes back as the same
-- header, and refuses the text only where it is empty.
pub parse-to_string :
    (t : NumberText) (c : CacheControl)
    → IsExact t
    → IsWellFormed c
    → parse t (to_string t c)
      ≡ (if length (to_string t c) == 0 then err no_cache_directives else ok c)
parse-to_string t c x w = parse-items t c x w (items t c) refl
