-- ===== src/HttpHeaders/Directives/Reading.antt =====
-- The loop of CacheControlHeaderValue.getCacheControlLength over a printed list of names and values.
use yohira.Common.{
  ℕ, zero, suc, ◌+◌, ◌<◌, ◌≡◌, refl, ap, ◌∙◌, true, false, List, [], ◌∷◌, ◌++◌, append_assoc, ltb,
  length, length-append, arith, some, All, ok,
}
use yohira.HttpHeaders.Rules.{sp}
use yohira.HttpHeaders.Rules.Positions.{At}
use yohira.HttpHeaders.Utilities.{comma, attempt, try_parse_value}
use yohira.HttpHeaders.NameValue.{NameValueHeaderValue, item_text, multiple_value_parser}
use yohira.HttpHeaders.NameValue.Items.{IsPrintable}
use yohira.HttpHeaders.NameValue.Attempts.{
  item_text-pos, item_text-IsContent, attempt_last, attempt_more,
}
use yohira.HttpHeaders.Directives.{name_values}

-- Further names and values, each behind a separator.
abbrev pub more_items : List NameValueHeaderValue → List ℕ
more_items [] = []
more_items (v ∷ vs) = comma ∷ sp ∷ (item_text v ++ more_items vs)

abbrev pub AllPrintable : List NameValueHeaderValue → Type 0
AllPrintable = All IsPrintable

module _ (input : List ℕ) where
  name_values-end :
      (f s : ℕ) (acc : List NameValueHeaderValue)
      → s ≡ length input
      → name_values (suc f) input s acc ≡ ok (some acc)
  unfolding name_values
  name_values-end f s acc h = let end : ltb s (length input) ≡ false = ground arith in rw end refl

  name_values-turn :
      (f s i : ℕ) (acc : List NameValueHeaderValue) (v : NameValueHeaderValue)
      → s < length input
      → try_parse_value multiple_value_parser (some input) s ≡ ok (attempt true i (some v))
      → name_values (suc f) input s acc ≡ name_values f input i (acc ++ v ∷ [])
  unfolding name_values
  name_values-turn f s i acc v lt e =
      let more : ltb s (length input) ≡ true = ground arith in rw (more, e) refl

  pub name_values-At :
      (f s : ℕ) (acc : List NameValueHeaderValue) (v : NameValueHeaderValue)
      (vs : List NameValueHeaderValue)
      → length vs + 1 < f
      → IsPrintable v
      → AllPrintable vs
      → At input s (item_text v ++ more_items vs)
      → name_values f input s acc ≡ ok (some (acc ++ v ∷ vs))
  name_values-At zero s acc v vs lt p ps a = elim lt [ ]
  name_values-At (suc zero) s acc v vs lt p ps a = absurd (omega (arith, lt))
  name_values-At (suc (suc f)) s acc v [] lt p ps a =
      let (parsed, end) = attempt_last input s v p a in
      let positive = item_text-pos v p in
      name_values-turn (suc f) s (s + length (item_text v)) acc v (omega (arith, end, positive))
        parsed
      ∙ name_values-end f (s + length (item_text v)) (acc ++ v ∷ []) end
  name_values-At (suc f) s acc v (w ∷ ws) lt p ps a =
      let content = item_text-IsContent w (more_items ws) ps.0 in
      let (parsed, next) = attempt_more input s v (item_text w ++ more_items ws) p content a in
      let i = s + length (item_text v) + 1 + 1 in
      name_values-turn f s i acc v
        (omega (arith, a.within, length-append (item_text v) (more_items (w ∷ ws)))) parsed
      ∙ name_values-At f i (acc ++ v ∷ []) w ws (omega (arith, lt)) ps.0 ps.1 next
      ∙ ap (λ l. ok (some l)) (append_assoc acc (v ∷ []) (w ∷ ws))
