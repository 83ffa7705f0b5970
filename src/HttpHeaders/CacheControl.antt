-- ===== src/HttpHeaders/CacheControl.antt =====
-- packages/http.headers/src/CacheControlHeaderValue.ts.
use yohira.Common.{
  eqb_Bool, ℕ, Bool, false, ◌&&◌, List, [], ◌∷◌, ◌++◌, ltb, if◌then◌else◌, length, Option, none,
  some, codes, same_text, to_lower_case,
}
use yohira.Base.TimeSpan
use yohira.Base.TimeSpan.{TimeSpan, from_seconds, total_seconds}
use yohira.HttpHeaders.Rules.{quote}
use yohira.HttpHeaders.Utilities.{NumberText, are_equal_collections}
use yohira.HttpHeaders.NameValue
use yohira.HttpHeaders.NameValue.{
  NameValueHeaderValue, append_to, same_ignoring_case, multiple_value_parser, text_of,
}

-- `none` is undefined.
pub record CacheControl : Type 0 where
  pub no_cache : Bool
  pub no_cache_headers : Option (List (List ℕ))
  pub no_store : Bool
  pub max_age : Option TimeSpan
  pub shared_max_age : Option TimeSpan
  pub max_stale : Bool
  pub max_stale_limit : Option TimeSpan
  pub min_fresh : Option TimeSpan
  pub no_transform : Bool
  pub only_if_cached : Bool
  pub public : Bool
  pub private : Bool
  pub private_headers : Option (List (List ℕ))
  pub must_revalidate : Bool
  pub proxy_revalidate : Bool
  pub extensions : Option (List NameValueHeaderValue)

abbrev pub new_cache_control : CacheControl
new_cache_control = record {
  no_cache = false;
  no_cache_headers = none;
  no_store = false;
  max_age = none;
  shared_max_age = none;
  max_stale = false;
  max_stale_limit = none;
  min_fresh = none;
  no_transform = false;
  only_if_cached = false;
  public = false;
  private = false;
  private_headers = none;
  must_revalidate = false;
  proxy_revalidate = false;
  extensions = none;
}

abbrev pub public_string : List ℕ
public_string = codes "public"

abbrev pub private_string : List ℕ
private_string = codes "private"

abbrev pub max_age_string : List ℕ
max_age_string = codes "max-age"

abbrev pub shared_max_age_string : List ℕ
shared_max_age_string = codes "s-maxage"

abbrev pub no_cache_string : List ℕ
no_cache_string = codes "no-cache"

abbrev pub no_store_string : List ℕ
no_store_string = codes "no-store"

abbrev pub max_stale_string : List ℕ
max_stale_string = codes "max-stale"

abbrev pub min_fresh_string : List ℕ
min_fresh_string = codes "min-fresh"

abbrev pub no_transform_string : List ℕ
no_transform_string = codes "no-transform"

abbrev pub only_if_cached_string : List ℕ
only_if_cached_string = codes "only-if-cached"

abbrev pub must_revalidate_string : List ℕ
must_revalidate_string = codes "must-revalidate"

abbrev pub proxy_revalidate_string : List ℕ
proxy_revalidate_string = codes "proxy-revalidate"

-- toString: what is appended to the text so far.
unfoldable pub append_value_with_separator_if_required : List ℕ → List ℕ → List ℕ
append_value_with_separator_if_required sb value =
    (if ltb 0 (length sb) then sb ++ codes ", " else sb) ++ value

unfoldable pub append_value_if_required : List ℕ → Bool → List ℕ → List ℕ
append_value_if_required sb append_value value =
    if append_value then append_value_with_separator_if_required sb value else sb

-- The loop of appendValues, behind the first value.
abbrev pub append_more : List ℕ → List (List ℕ) → List ℕ
append_more sb [] = sb
append_more sb (v ∷ vs) = append_more (sb ++ codes ", " ++ v) vs

unfoldable pub append_values : List ℕ → List (List ℕ) → List ℕ
append_values sb [] = sb
append_values sb (v ∷ vs) = append_more (sb ++ v) vs

-- `if (headers !== undefined && headers.length > 0)`
unfoldable pub append_headers : List ℕ → Option (List (List ℕ)) → List ℕ
append_headers sb none = sb
append_headers sb (some []) = sb
append_headers sb (some (h ∷ hs)) = append_values (sb ++ b'=' ∷ quote ∷ []) (h ∷ hs) ++ quote ∷ []

unfoldable pub append_with_headers : List ℕ → Bool → List ℕ → Option (List (List ℕ)) → List ℕ
append_with_headers sb present name headers =
    if present then append_headers (append_value_with_separator_if_required sb name) headers else sb

module _ (t : NumberText) where
  abbrev pub seconds_text : TimeSpan → List ℕ
  seconds_text span = t.to_string (total_seconds span)

  unfoldable pub append_time : List ℕ → List ℕ → Option TimeSpan → List ℕ
  append_time sb name none = sb
  append_time sb name (some span) =
      (append_value_with_separator_if_required sb name ++ b'=' ∷ []) ++ seconds_text span

  unfoldable pub append_limit : List ℕ → Option TimeSpan → List ℕ
  append_limit sb none = sb
  append_limit sb (some span) = (sb ++ b'=' ∷ []) ++ seconds_text span

  unfoldable pub to_string : CacheControl → List ℕ
  to_string c =
      let s1 = append_value_if_required [] c.no_store no_store_string in
      let s2 = append_value_if_required s1 c.no_transform no_transform_string in
      let s3 = append_value_if_required s2 c.only_if_cached only_if_cached_string in
      let s4 = append_value_if_required s3 c.public public_string in
      let s5 = append_value_if_required s4 c.must_revalidate must_revalidate_string in
      let s6 = append_value_if_required s5 c.proxy_revalidate proxy_revalidate_string in
      let s7 = append_with_headers s6 c.no_cache no_cache_string c.no_cache_headers in
      let s8 = append_time s7 max_age_string c.max_age in
      let s9 = append_time s8 shared_max_age_string c.shared_max_age in
      let s10 =
        if c.max_stale
        then append_limit (append_value_with_separator_if_required s9 max_stale_string)
            c.max_stale_limit
        else s9 in
      let s11 = append_time s10 min_fresh_string c.min_fresh in
      let s12 = append_with_headers s11 c.private private_string c.private_headers in
      append_to c.extensions (codes ",") false s12

-- The names of a directive, compared in lower case.
abbrev pub same_name : List ℕ → List ℕ → Bool
same_name x y = same_text (to_lower_case x) (to_lower_case y)

unfoldable pub equals : CacheControl → CacheControl → Bool
equals x y =
    (eqb_Bool x.no_cache y.no_cache
      && (eqb_Bool x.no_store y.no_store
          && (TimeSpan.equals x.max_age y.max_age
              && (TimeSpan.equals x.shared_max_age y.shared_max_age
                  && (eqb_Bool x.max_stale y.max_stale
                      && (TimeSpan.equals x.max_stale_limit y.max_stale_limit
                          && (TimeSpan.equals x.min_fresh y.min_fresh
                              && (eqb_Bool x.no_transform y.no_transform
                                  && (eqb_Bool x.only_if_cached y.only_if_cached
                                      && (eqb_Bool x.public y.public
                                          && (eqb_Bool x.private y.private
                                              && (eqb_Bool x.must_revalidate y.must_revalidate
                                                  && eqb_Bool x.proxy_revalidate
                                                      y.proxy_revalidate))))))))))))
    && (are_equal_collections same_name x.no_cache_headers y.no_cache_headers
        && (are_equal_collections same_name x.private_headers y.private_headers
            && are_equal_collections NameValue.equals x.extensions y.extensions))
