-- ===== src/HttpHeaders/Tests.antt =====
-- Runs of the header parsers.
use yohira.Common.{
  ℕ, zero, suc, ◌+◌, ◌-◌, ◌*◌, ◌≡◌, refl, Bool, true, false, List, [], ◌∷◌, ◌++◌, ◌==◌,
  if◌then◌else◌, length, replicate, arith, ◌≢◌, ◌↔◌, Option, none, some, Result, ok, err, codes, ℤ,
  pos, negsuc,
}
use yohira.Common
use yohira.Base.TimeSpan
use yohira.Base.TimeSpan.{from_seconds}
use yohira.HttpHeaders.Rules
use yohira.HttpHeaders.Utilities
use yohira.HttpHeaders.Utilities.{NumberText}
use yohira.HttpHeaders.NameValue
use yohira.HttpHeaders.CacheControl
use yohira.HttpHeaders.CacheControl.{CacheControl, new_cache_control, to_string}
use yohira.HttpHeaders.Directives
use yohira.HttpHeaders.Directives.{parse}
use yohira.HttpHeaders.Directives.Setting.{
  IsExact, IsWellFormed, no_headers, headers, unset, seconds, no_limit, no_extensions,
}
use yohira.HttpHeaders.Directives.RoundTrip.{parse-to_string}
use yohira.HttpHeaders.Rules.{HeaderError, get_expression_length, out_of_fuel, no_cache_directives}
use yohira.HttpHeaders.Rules.Positions.{IsToken}
use yohira.HttpHeaders.Rules.Quoted.{get_expression_length-ends}
use yohira.HttpHeaders.Utilities.{are_equal_collections}
use yohira.HttpHeaders.Utilities.Collections.{
  IsEquivalence, count, listed, are_equal_collections-count,
}

-- Numbers written as that many ones behind a zero.
abbrev ones : List ℕ → Option ℕ
ones [] = some 0
ones (c ∷ cs) = if c == b'1' then elim (ones cs) [ none ↦ none | some n ↦ some (suc n) ] else none

abbrev unary_number : List ℕ → Option ℤ
unary_number [] = none
unary_number (c ∷ cs) =
    if c == b'0'
    then elim (ones cs) [ none ↦ none | some n ↦ some (pos n) ]
    else if c == b'-'
    then elim (ones cs) [ none ↦ none | some n ↦ some (negsuc n) ]
    else none

abbrev unary_text : ℤ → List ℕ
unary_text (pos n) = b'0' ∷ replicate n b'1'
unary_text (negsuc n) = b'-' ∷ replicate n b'1'

abbrev unary : NumberText
unary = record { number = unary_number; to_string = unary_text }

abbrev sample : CacheControl
sample = record new_cache_control {
  no_store = true;
  max_age = some (from_seconds (pos 3));
  private = true;
  private_headers = some (codes "a" ∷ codes "b" ∷ []);
}

sample_text : to_string unary sample ≡ codes "no-store, max-age=0111, private=\"a, b\""
unfolding to_string NameValue.append_to CacheControl.append_with_headers CacheControl.append_headers
    CacheControl.append_values CacheControl.append_value_with_separator_if_required
    CacheControl.append_time CacheControl.append_value_if_required TimeSpan.total_seconds
    from_seconds
sample_text = refl

sample_parsed : parse unary (codes " no-store , max-age=0111,, private=\"a, b\"") ≡ ok sample
unfolding parse Utilities.parse_value Utilities.try_parse_value Utilities.try_parse_text
    Utilities.get_next_non_empty_or_whitespace_index Rules.get_whitespace_length
    Rules.whitespace_from Utilities.parse_at Directives.get_cache_control_length
    Directives.name_values NameValue.get_name_value_length Rules.get_token_length
    Rules.index_of_any_except Common.includes Utilities.finish_value Utilities.skip_separators
    NameValue.get_value_part NameValue.get_value_length from_seconds Common.same_text
    Common.to_lower Directives.directive_of Directives.is_token_only Directives.set_directive
    Directives.token_list Directives.try_set_cache_control_values
    Directives.try_set_optional_token_list Directives.try_set_time_span NameValue.same_ignoring_case
    Rules.closing Rules.expression_at Rules.get_expression_length Rules.get_quoted_pair_length
    Rules.get_quoted_string_length Rules.scan_expression Utilities.try_parse_non_negative_int32
sample_parsed = refl

ones-IsToken : (n : ℕ) → IsToken (replicate n b'1')
unfolding Common.includes
ones-IsToken zero = tt
ones-IsToken (suc n) = (refl, ones-IsToken n)

ones-replicate : (n : ℕ) → ones (replicate n b'1') ≡ some n
ones-replicate zero = refl
ones-replicate (suc n) = rw (ones-replicate n) refl

unary-IsExact : IsExact unary
unfolding Common.includes
unary-IsExact = record {
  written = λ n safe. elim n as (λ n. IsToken (unary_text n)) [
    | pos n ↦ (refl, ones-IsToken n)
    | negsuc n ↦ (refl, ones-IsToken n)
  ];
  not_empty = λ n safe. elim n as (λ n. (c : ℕ) × (cs : List ℕ) × (unary_text n ≡ c ∷ cs)) [
    | pos n ↦ (b'0', replicate n b'1', refl)
    | negsuc n ↦ (b'-', replicate n b'1', refl)
  ];
  read_back = λ n safe. elim n as (λ n. unary_number (unary_text n) ≡ some n) [
    | pos n ↦ rw (ones-replicate n) refl
    | negsuc n ↦ rw (ones-replicate n) refl
  ];
}

sample-IsWellFormed : IsWellFormed sample
unfolding Common.includes
sample-IsWellFormed = record {
  no_cache_names = no_headers false;
  private_names =
      headers (codes "a") (codes "b" ∷ [])
        (((refl, tt), ground arith), (((refl, tt), ground arith), tt));
  age = seconds (pos 3) (ground arith);
  shared_age = unset;
  stale = no_limit false;
  fresh = unset;
  others = no_extensions;
}

parse-to_string_example :
    parse unary (to_string unary sample)
    ≡ (if length (to_string unary sample) == 0 then err no_cache_directives else ok sample)
parse-to_string_example = parse-to_string unary sample unary-IsExact sample-IsWellFormed

get_expression_length-ends_example :
    get_expression_length (codes "((((((a))))))") 0 b'(' b')' true 0 ≢ err out_of_fuel
get_expression_length-ends_example =
    get_expression_length-ends (codes "((((((a))))))") 0 b'(' b')' true 0

eqb : ℕ → ℕ → Bool
eqb x y = x == y

eqb-IsEquivalence : IsEquivalence eqb
unfolding eqb
eqb-IsEquivalence = record {
  reflexive = λ x. ground arith;
  symmetric = λ x y h. ground arith;
  transitive = λ x y z h k. ground arith;
}

are_equal_collections-count_example :
    (are_equal_collections eqb (some (1 ∷ 2 ∷ 1 ∷ [])) (some (2 ∷ 1 ∷ 1 ∷ [])) ≡ true) ↔ (
      (a : ℕ)
      → count eqb a (listed (some (1 ∷ 2 ∷ 1 ∷ []))) ≡ count eqb a (listed (some (2 ∷ 1 ∷ 1 ∷ []))))
are_equal_collections-count_example =
    are_equal_collections-count eqb eqb-IsEquivalence (some (1 ∷ 2 ∷ 1 ∷ []))
      (some (2 ∷ 1 ∷ 1 ∷ []))
