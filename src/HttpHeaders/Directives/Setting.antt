-- ===== src/HttpHeaders/Directives/Setting.antt =====
-- CacheControlHeaderValue.trySetCacheControlValues over the names and values that toString writes.
use yohira.Common.{
  ℕ, ◌+◌, ◌≤◌, ◌≡◌, refl, sym, ap, ◌∙◌, Bool, true, false, List, [], ◌∷◌, ◌++◌, append_assoc,
  append-nil, Option, none, some, ok, All, ℤ, pos_part, neg_part, to_lower, same_text,
}
use yohira.Base.TimeSpan.{TimeSpan, from_seconds, total_seconds, total_seconds-from_seconds}
use yohira.HttpHeaders.Rules.Positions.{IsToken}
use yohira.HttpHeaders.Utilities.{NumberText, try_parse_non_negative_int32}
use yohira.HttpHeaders.NameValue.{NameValueHeaderValue, name_value, same_ignoring_case}
use yohira.HttpHeaders.CacheControl.{
  CacheControl, new_cache_control, public_string, private_string, max_age_string,
  shared_max_age_string, no_cache_string, no_store_string, max_stale_string, min_fresh_string,
  no_transform_string, only_if_cached_string, must_revalidate_string, proxy_revalidate_string,
}
use yohira.HttpHeaders.Directives.{
  Directive, directive_of, is_token_only, try_set_optional_token_list, try_set_time_span,
  set_directive, try_set_cache_control_values,
}
use yohira.HttpHeaders.Directives.{
  public, max_age, private, no_cache, no_store, shared_max_age, max_stale, min_fresh, no_transform,
  only_if_cached, must_revalidate, proxy_revalidate, extension,
}
use yohira.HttpHeaders.Directives.Reading.{AllPrintable}
use yohira.HttpHeaders.Directives.Printing.{
  flag_items, headers_items, time_items, limit_items, extension_items, items,
}
use yohira.HttpHeaders.Directives.HeaderNames.{AllNames, try_set_optional_token_list-names}

-- The largest integer that a JavaScript number stands for along with all below it.
abbrev pub max_safe_integer : ℕ
max_safe_integer = 9007199254740991

abbrev pub IsSafe : ℤ → Type 0
IsSafe n = pos_part n + neg_part n ≤ max_safe_integer

-- What the code relies on of `Number` and `toString`: the text of an integer is a token, from which
-- `Number` gets that integer back.
pub record IsExact (t : NumberText) : Type 0 where
  pub written : (n : ℤ) → IsSafe n → IsToken (t.to_string n)
  pub not_empty : (n : ℤ) → IsSafe n → (c : ℕ) × (cs : List ℕ) × (t.to_string n ≡ c ∷ cs)
  pub read_back : (n : ℤ) → IsSafe n → t.number (t.to_string n) ≡ some n

-- A time that is not set, or a whole number of seconds.
pub data IsTime : Option TimeSpan → Type 0 where
  unset : IsTime none
  seconds : (n : ℤ) → IsSafe n → IsTime (some (from_seconds n))

-- Names stand only in a directive that is set.
pub data IsHeaders : Bool → Option (List (List ℕ)) → Type 0 where
  no_headers : (b : Bool) → IsHeaders b none
  headers : (h : List ℕ) (hs : List (List ℕ)) → AllNames (h ∷ hs) → IsHeaders true (some (h ∷ hs))

-- A limit stands only in a directive that is set.
pub data IsLimit : Bool → Option TimeSpan → Type 0 where
  no_limit : (b : Bool) → IsLimit b none
  limit : (n : ℤ) → IsSafe n → IsLimit true (some (from_seconds n))

abbrev IsExtension : NameValueHeaderValue → Type 0
IsExtension v = directive_of v.name ≡ extension

pub data IsExtensions : Option (List NameValueHeaderValue) → Type 0 where
  no_extensions : IsExtensions none
  extensions :
      (v : NameValueHeaderValue) (vs : List NameValueHeaderValue)
      → AllPrintable (v ∷ vs)
      → All IsExtension (v ∷ vs)
      → IsExtensions (some (v ∷ vs))

module _ (t : NumberText) where
  -- What a part of the list makes of the directives set so far, whatever follows it.
  abbrev Sets : CacheControl → List NameValueHeaderValue → CacheControl → Type 0
  Sets c part c' =
      (rest : List NameValueHeaderValue)
      → try_set_cache_control_values t c (part ++ rest) ≡ try_set_cache_control_values t c' rest

  set_one :
      (c c' : CacheControl) (v : NameValueHeaderValue) (d : Directive)
      → directive_of v.name ≡ d
      → set_directive t c v d ≡ ok (some c')
      → Sets c (v ∷ []) c'
  unfolding try_set_cache_control_values
  set_one c c' v d e h rest = rw (e, h) refl

  set_time_span :
      (text : List ℕ) (n : ℤ)
      → try_parse_non_negative_int32 t (some text) ≡ some n
      → try_set_time_span t (some text) ≡ some (from_seconds n)
  unfolding try_set_time_span
  set_time_span text n e = rw (e, try_set_time_span) refl

  read_seconds :
      IsExact t
      → (n : ℤ) → IsSafe n
      → try_set_time_span t (some (t.to_string (total_seconds (from_seconds n))))
        ≡ some (from_seconds n)
  unfolding try_parse_non_negative_int32
  read_seconds x n safe =
      let (c, cs, e) = x.not_empty n safe in
      let read : try_parse_non_negative_int32 t (some (t.to_string n)) ≡ some n =
        ap (λ l. try_parse_non_negative_int32 t (some l)) e
        ∙ ap t.number (sym e)
        ∙ x.read_back n safe in
      rw (total_seconds-from_seconds n) (set_time_span (t.to_string n) n read)

  module _ (name : List ℕ) (d : Directive) (e : directive_of (some name) ≡ d) where
    flag-Sets :
        (f : Bool → CacheControl)
        → set_directive t (f false) (name_value name none) d ≡ ok (some (f true))
        → (b : Bool) → Sets (f false) (flag_items b name) (f b)
    flag-Sets f h true = set_one (f false) (f true) (name_value name none) d e h
    flag-Sets f h false = λ rest. refl

    headers-Sets :
        (f : Bool → Option (List (List ℕ)) → CacheControl)
        → ((value : Option (List ℕ)) (hs : Option (List (List ℕ)))
            → try_set_optional_token_list value none ≡ ok (some hs)
            → set_directive t (f false none) (name_value name value) d ≡ ok (some (f true hs)))
        → (b : Bool) (hs : Option (List (List ℕ))) → IsHeaders b hs
        → Sets (f false none) (headers_items b name hs) (f b hs)
    unfolding try_set_optional_token_list
    headers-Sets f h true _ (no_headers _) =
        set_one (f false none) (f true none) (name_value name none) d e (h none none refl)
    headers-Sets f h false _ (no_headers _) = λ rest. refl
    headers-Sets f h _ _ (headers n ns names) =
        set_one (f false none) (f true (some (n ∷ ns))) _ d e
          (h _ (some (n ∷ ns)) (try_set_optional_token_list-names n ns names))

    time-Sets :
        IsExact t
        → (f : Option TimeSpan → CacheControl)
        → ((value : Option (List ℕ)) (s : TimeSpan)
            → try_set_time_span t value ≡ some s
            → set_directive t (f none) (name_value name value) d ≡ ok (some (f (some s))))
        → (o : Option TimeSpan) → IsTime o
        → Sets (f none) (time_items t name o) (f o)
    time-Sets x f h _ unset = λ rest. refl
    time-Sets x f h _ (seconds n safe) =
        set_one (f none) (f (some (from_seconds n))) _ d e
          (h _ (from_seconds n) (read_seconds x n safe))

  limit-Sets :
      IsExact t
      → (c : CacheControl) (b : Bool) (o : Option TimeSpan) → IsLimit b o
      → Sets
          (record c { max_stale = false; max_stale_limit = none })
          (limit_items t b o)
          (record c { max_stale = b; max_stale_limit = o })
  unfolding directive_of same_ignoring_case to_lower same_text set_directive is_token_only
  limit-Sets x c true _ (no_limit _) =
      set_one _ _ (name_value max_stale_string none) max_stale refl refl
  limit-Sets x c false _ (no_limit _) = λ rest. refl
  limit-Sets x c _ _ (limit n safe) = set_one _ _ _ max_stale refl (rw (read_seconds x n safe) refl)

  more_extensions :
      (c : CacheControl) (old vs : List NameValueHeaderValue)
      → All IsExtension vs
      → try_set_cache_control_values t (record c { extensions = some old }) vs
        ≡ ok (some (record c { extensions = some (old ++ vs) }))
  unfolding try_set_cache_control_values set_directive
  more_extensions c old [] h =
      ap (λ l. ok (some (record c { extensions = some l }))) (sym (append-nil old))
  more_extensions c old (v ∷ vs) h = rw h.0 (
      more_extensions c (old ++ v ∷ []) vs h.1
      ∙ ap (λ l. ok (some (record c { extensions = some l }))) (append_assoc old (v ∷ []) vs))

  set_extensions :
      (c : CacheControl) (o : Option (List NameValueHeaderValue))
      → IsExtensions o
      → try_set_cache_control_values t (record c { extensions = none }) (extension_items o)
        ≡ ok (some (record c { extensions = o }))
  unfolding try_set_cache_control_values set_directive
  set_extensions c _ no_extensions = refl
  set_extensions c _ (extensions v vs p h) = rw h.0 (more_extensions c (v ∷ []) vs h.1)

-- A header whose text says all that it holds.
pub record IsWellFormed (c : CacheControl) : Type 0 where
  pub no_cache_names : IsHeaders c.no_cache c.no_cache_headers
  pub private_names : IsHeaders c.private c.private_headers
  pub age : IsTime c.max_age
  pub shared_age : IsTime c.shared_max_age
  pub stale : IsLimit c.max_stale c.max_stale_limit
  pub fresh : IsTime c.min_fresh
  pub others : IsExtensions c.extensions

pub set-items :
    (t : NumberText) (c : CacheControl)
    → IsExact t
    → IsWellFormed c
    → try_set_cache_control_values t new_cache_control (items t c) ≡ ok (some c)
unfolding directive_of same_ignoring_case to_lower same_text set_directive is_token_only
set-items t c x w =
    let c0 = new_cache_control in
    let c1 = record c0 { no_store = c.no_store } in
    let c2 = record c1 { no_transform = c.no_transform } in
    let c3 = record c2 { only_if_cached = c.only_if_cached } in
    let c4 = record c3 { public = c.public } in
    let c5 = record c4 { must_revalidate = c.must_revalidate } in
    let c6 = record c5 { proxy_revalidate = c.proxy_revalidate } in
    let c7 = record c6 { no_cache = c.no_cache; no_cache_headers = c.no_cache_headers } in
    let c8 = record c7 { max_age = c.max_age } in
    let c9 = record c8 { shared_max_age = c.shared_max_age } in
    let c10 = record c9 { max_stale = c.max_stale; max_stale_limit = c.max_stale_limit } in
    let c11 = record c10 { min_fresh = c.min_fresh } in
    let c12 = record c11 { private = c.private; private_headers = c.private_headers } in
    flag-Sets t no_store_string no_store refl (λ b. record c0 { no_store = b }) refl c.no_store _
    ∙ flag-Sets t no_transform_string no_transform refl (λ b. record c1 { no_transform = b }) refl
        c.no_transform _
    ∙ flag-Sets t only_if_cached_string only_if_cached refl (λ b. record c2 { only_if_cached = b })
        refl c.only_if_cached _
    ∙ flag-Sets t public_string public refl (λ b. record c3 { public = b }) refl c.public _
    ∙ flag-Sets t must_revalidate_string must_revalidate refl
        (λ b. record c4 { must_revalidate = b }) refl c.must_revalidate _
    ∙ flag-Sets t proxy_revalidate_string proxy_revalidate refl
        (λ b. record c5 { proxy_revalidate = b }) refl c.proxy_revalidate _
    ∙ headers-Sets t no_cache_string no_cache refl
        (λ b hs. record c6 { no_cache = b; no_cache_headers = hs }) (λ value hs e. rw e refl)
        c.no_cache c.no_cache_headers w.no_cache_names _
    ∙ time-Sets t max_age_string max_age refl x (λ o. record c7 { max_age = o })
        (λ value s e. rw e refl) c.max_age w.age _
    ∙ time-Sets t shared_max_age_string shared_max_age refl x
        (λ o. record c8 { shared_max_age = o }) (λ value s e. rw e refl) c.shared_max_age
        w.shared_age _
    ∙ limit-Sets t x c9 c.max_stale c.max_stale_limit w.stale _
    ∙ time-Sets t min_fresh_string min_fresh refl x (λ o. record c10 { min_fresh = o })
        (λ value s e. rw e refl) c.min_fresh w.fresh _
    ∙ headers-Sets t private_string private refl
        (λ b hs. record c11 { private = b; private_headers = hs }) (λ value hs e. rw e refl)
        c.private c.private_headers w.private_names _
    ∙ set_extensions t c12 c.extensions w.others
