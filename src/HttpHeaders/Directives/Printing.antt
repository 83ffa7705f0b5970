-- ===== src/HttpHeaders/Directives/Printing.antt =====
-- CacheControlHeaderValue.toString as a list of names and values.
use yohira.Common.{
  ℕ, suc, ◌<◌, ◌≡◌, refl, sym, ap, ◌∙◌, Bool, true, false, List, [], ◌∷◌, ◌++◌, append_assoc,
  append-nil, ltb, ◌==◌, if◌then◌else◌, length, length-append, arith, Option, none, some, codes,
  Bool-cases, inl, inr,
}
use yohira.Base.TimeSpan.{TimeSpan}
use yohira.HttpHeaders.Rules.{quote}
use yohira.HttpHeaders.Utilities.{NumberText}
use yohira.HttpHeaders.NameValue.{
  NameValueHeaderValue, name_value, item_text, append_items, append_to,
}
use yohira.HttpHeaders.CacheControl.{
  CacheControl, public_string, private_string, max_age_string, shared_max_age_string,
  no_cache_string, no_store_string, max_stale_string, min_fresh_string, no_transform_string,
  only_if_cached_string, must_revalidate_string, proxy_revalidate_string,
  append_value_with_separator_if_required, append_value_if_required, append_more, append_values,
  append_headers, append_with_headers, seconds_text, append_time, append_limit, to_string,
}
use yohira.HttpHeaders.Directives.Reading.{more_items}

-- The names of a list, behind the first.
abbrev pub more_names : List (List ℕ) → List ℕ
more_names [] = []
more_names (h ∷ hs) = b',' ∷ b' ' ∷ (h ++ more_names hs)

abbrev pub headers_value : Option (List (List ℕ)) → Option (List ℕ)
headers_value none = none
headers_value (some []) = none
headers_value (some (h ∷ hs)) = some (quote ∷ (h ++ more_names hs) ++ quote ∷ [])

-- The names and values of each directive.
abbrev pub flag_items : Bool → List ℕ → List NameValueHeaderValue
flag_items true name = name_value name none ∷ []
flag_items false name = []

abbrev pub headers_items : Bool → List ℕ → Option (List (List ℕ)) → List NameValueHeaderValue
headers_items true name headers = name_value name (headers_value headers) ∷ []
headers_items false name headers = []

module _ (t : NumberText) where
  abbrev pub time_items : List ℕ → Option TimeSpan → List NameValueHeaderValue
  time_items name none = []
  time_items name (some span) = name_value name (some (seconds_text t span)) ∷ []

  abbrev pub limit_items : Bool → Option TimeSpan → List NameValueHeaderValue
  limit_items true none = name_value max_stale_string none ∷ []
  limit_items true (some span) = name_value max_stale_string (some (seconds_text t span)) ∷ []
  limit_items false limit = []

abbrev pub extension_items : Option (List NameValueHeaderValue) → List NameValueHeaderValue
extension_items none = []
extension_items (some values) = values

abbrev pub items : NumberText → CacheControl → List NameValueHeaderValue
items t c =
    flag_items c.no_store no_store_string
    ++ (flag_items c.no_transform no_transform_string
        ++ (flag_items c.only_if_cached only_if_cached_string
            ++ (flag_items c.public public_string
                ++ (flag_items c.must_revalidate must_revalidate_string
                    ++ (flag_items c.proxy_revalidate proxy_revalidate_string
                        ++ (headers_items c.no_cache no_cache_string c.no_cache_headers
                            ++ (time_items t max_age_string c.max_age
                                ++ (time_items t shared_max_age_string c.shared_max_age
                                    ++ (limit_items t c.max_stale c.max_stale_limit
                                        ++ (time_items t min_fresh_string c.min_fresh
                                            ++ (headers_items c.private private_string
                                                  c.private_headers
                                                ++ extension_items c.extensions)))))))))))

-- Items behind a text, with the separators.
abbrev joined : List ℕ → List NameValueHeaderValue → List ℕ
joined sb [] = sb
joined sb (v ∷ vs) = joined (append_value_with_separator_if_required sb (item_text v)) vs

joined-append :
    (sb : List ℕ) (xs ys : List NameValueHeaderValue)
    → joined sb (xs ++ ys) ≡ joined (joined sb xs) ys
joined-append sb [] ys = refl
joined-append sb (x ∷ xs) ys =
    joined-append (append_value_with_separator_if_required sb (item_text x)) xs ys

item_text-alone : (n : List ℕ) → item_text (name_value n none) ≡ n
unfolding item_text
item_text-alone n = append-nil n

-- A value that is not empty.
item_text-value :
    (n : List ℕ) (c : ℕ) (cs : List ℕ)
    → item_text (name_value n (some (c ∷ cs))) ≡ n ++ b'=' ∷ c ∷ cs
unfolding item_text
item_text-value n c cs =
    let some_value : (suc (length cs) == 0) ≡ false = ground arith in rw some_value refl

append_flag-joined :
    (sb : List ℕ) (b : Bool) (name : List ℕ)
    → append_value_if_required sb b name ≡ joined sb (flag_items b name)
unfolding append_value_if_required
append_flag-joined sb true name =
    ap (append_value_with_separator_if_required sb) (sym (item_text-alone name))
append_flag-joined sb false name = refl

append_more-more_names :
    (sb : List ℕ) (hs : List (List ℕ)) → append_more sb hs ≡ sb ++ more_names hs
append_more-more_names sb [] = sym (append-nil sb)
append_more-more_names sb (h ∷ hs) =
    append_more-more_names (sb ++ codes ", " ++ h) hs ∙ simp (append_assoc)

append_with_headers-joined :
    (sb : List ℕ) (b : Bool) (name : List ℕ) (headers : Option (List (List ℕ)))
    → append_with_headers sb b name headers ≡ joined sb (headers_items b name headers)
unfolding append_with_headers append_headers append_values append_value_with_separator_if_required
append_with_headers-joined sb false name headers = refl
append_with_headers-joined sb true name none =
    ap (append_value_with_separator_if_required sb) (sym (item_text-alone name))
append_with_headers-joined sb true name (some []) =
    ap (append_value_with_separator_if_required sb) (sym (item_text-alone name))
append_with_headers-joined sb true name (some (h ∷ hs)) =
    simp (append_more-more_names, item_text-value, append_assoc)

module _ (t : NumberText) where
  append_time-joined :
      (sb name : List ℕ) (o : Option TimeSpan)
      → ((span : TimeSpan) → o ≡ some span → 0 < length (seconds_text t span))
      → append_time t sb name o ≡ joined sb (time_items t name o)
  unfolding append_time append_value_with_separator_if_required item_text
  append_time-joined sb name none h = refl
  append_time-joined sb name (some span) h =
      let written : (length (seconds_text t span) == 0) ≡ false = ground (arith, h span refl) in
      simp (written, append_assoc)

  append_limit-joined :
      (sb : List ℕ) (b : Bool) (o : Option TimeSpan)
      → ((span : TimeSpan) → o ≡ some span → 0 < length (seconds_text t span))
      → (if b
          then append_limit t (append_value_with_separator_if_required sb max_stale_string) o
          else sb)
        ≡ joined sb (limit_items t b o)
  unfolding append_limit append_value_with_separator_if_required item_text
  append_limit-joined sb false o h = refl
  append_limit-joined sb true none h = refl
  append_limit-joined sb true (some span) h =
      let written : (length (seconds_text t span) == 0) ≡ false = ground (arith, h span refl) in
      simp (written, append_assoc)

append_items-joined :
    (sb : List ℕ) (vs : List NameValueHeaderValue)
    → append_items vs (codes ",") false sb ≡ joined sb vs
unfolding append_items append_value_with_separator_if_required
append_items-joined sb [] = refl
append_items-joined sb (v ∷ vs) = elim (Bool-cases (ltb 0 (length sb))) [
  | inl p ↦
      rw (p, append_assoc sb (codes ",") (codes " "))
        (append_items-joined ((sb ++ codes ", ") ++ item_text v) vs)
  | inr p ↦ rw p (append_items-joined (sb ++ item_text v) vs)
]

append_to-joined :
    (sb : List ℕ) (o : Option (List NameValueHeaderValue))
    → append_to o (codes ",") false sb ≡ joined sb (extension_items o)
unfolding append_to
append_to-joined sb none = refl
append_to-joined sb (some vs) = append_items-joined sb vs

-- A time that is set has a text that is not empty.
abbrev pub IsWritten : NumberText → Option TimeSpan → Type 0
IsWritten t o = (span : TimeSpan) → o ≡ some span → 0 < length (seconds_text t span)

to_string-joined :
    (t : NumberText) (c : CacheControl)
    → IsWritten t c.max_age
    → IsWritten t c.shared_max_age
    → IsWritten t c.max_stale_limit
    → IsWritten t c.min_fresh
    → to_string t c ≡ joined [] (items t c)
unfolding to_string
to_string-joined t c a b d e =
    simp (append_flag-joined, append_with_headers-joined, append_to-joined, joined-append)
      (rw
        (
          append_time-joined t _ max_age_string c.max_age a,
          append_time-joined t _ shared_max_age_string c.shared_max_age b,
          append_limit-joined t _ c.max_stale c.max_stale_limit d,
          append_time-joined t _ min_fresh_string c.min_fresh e,
        )
        refl)

joined-more_items :
    (sb : List ℕ) (vs : List NameValueHeaderValue)
    → 0 < length sb
    → joined sb vs ≡ sb ++ more_items vs
unfolding append_value_with_separator_if_required
joined-more_items sb [] lt = sym (append-nil sb)
joined-more_items sb (v ∷ vs) lt =
    let first : ltb 0 (length sb) ≡ true = ground arith in
    rw first (
      joined-more_items ((sb ++ codes ", ") ++ item_text v) vs (
        omega
          (arith, length-append (sb ++ codes ", ") (item_text v), length-append sb (codes ", ")))
      ∙ simp append_assoc)

-- The first item begins the text.
pub to_string-items :
    (t : NumberText) (c : CacheControl) (v : NameValueHeaderValue) (vs : List NameValueHeaderValue)
    → IsWritten t c.max_age
    → IsWritten t c.shared_max_age
    → IsWritten t c.max_stale_limit
    → IsWritten t c.min_fresh
    → items t c ≡ v ∷ vs
    → 0 < length (item_text v)
    → to_string t c ≡ item_text v ++ more_items vs
unfolding append_value_with_separator_if_required
to_string-items t c v vs a b d e h lt =
    to_string-joined t c a b d e ∙ ap (joined []) h ∙ joined-more_items (item_text v) vs lt

pub to_string_empty :
    (t : NumberText) (c : CacheControl)
    → IsWritten t c.max_age
    → IsWritten t c.shared_max_age
    → IsWritten t c.max_stale_limit
    → IsWritten t c.min_fresh
    → items t c ≡ []
    → to_string t c ≡ []
to_string_empty t c a b d e h = to_string-joined t c a b d e ∙ ap (joined []) h
