-- ===== src/HttpHeaders/NameValue/Items.antt =====
-- NameValueHeaderValue.getNameValueLength reads what toString writes.
use yohira.Common.{
  ℕ, ◌+◌, ◌-◌, ◌<◌, ◌≡◌, refl, sym, ap, ◌∙◌, true, false, not, ◌||◌, List, [], ◌∷◌, ◌++◌,
  append_assoc, append-nil, leb, ◌==◌, length, length-append, arith, none, some, ok, subst,
  includes,
}
use yohira.HttpHeaders.Rules.{at_index, quote}
use yohira.HttpHeaders.Rules.Positions.{
  At, At-advance, At-next, At-get_or, At-leb, At-slice, IsToken, Stops, NotBlank, is_token_char,
  is_token_char-ne, get_token_length-At,
}
use yohira.HttpHeaders.Rules.Quoted.{IsPlain, get_quoted_string_length-At}
use yohira.HttpHeaders.Utilities.{comma}
use yohira.HttpHeaders.Utilities.Positions.{skip_no_blank}
use yohira.HttpHeaders.NameValue.{
  NameValueHeaderValue, name_value, item_text, get_value_length, get_value_part,
  get_name_value_length,
}

-- A value is a token, or quoted text without quotes and backslashes.
pub data IsValue : List ℕ → Type 0 where
  token : (v : List ℕ) → IsToken v → 0 < length v → IsValue v
  quoted : (body : List ℕ) → IsPlain body → IsValue (quote ∷ body ++ quote ∷ [])

-- A name that is a token, and such a value or none.
pub data IsPrintable : NameValueHeaderValue → Type 0 where
  alone : (n : List ℕ) → IsToken n → 0 < length n → IsPrintable (name_value n none)
  valued :
      (n v : List ℕ) → IsToken n → 0 < length n → IsValue v → IsPrintable (name_value n (some v))

-- What stands behind a value: nothing, or a separator.
abbrev pub Follows : List ℕ → Type 0
Follows [] = Unit {0}
Follows (c ∷ cs) = c ≡ comma

Follows-Stops : (rest : List ℕ) → Follows rest → Stops rest
unfolding includes
Follows-Stops [] h = tt
Follows-Stops (c ∷ cs) h = ap is_token_char h

Follows-NotBlank : (rest : List ℕ) → Follows rest → NotBlank rest
Follows-NotBlank [] h = tt
Follows-NotBlank (c ∷ cs) h = subst (λ c. NotBlank (c ∷ cs)) (sym h) (refl, refl)

token-NotBlank : (ts rest : List ℕ) → IsToken ts → 0 < length ts → NotBlank (ts ++ rest)
unfolding includes
token-NotBlank [] rest h lt = elim lt [ ]
token-NotBlank (t ∷ ts) rest h lt =
    let a = is_token_char-ne t 32 h.0 refl in
    let b = is_token_char-ne t 9 h.0 refl in (rw (a, b) refl, is_token_char-ne t 13 h.0 refl)

value-NotBlank : (v rest : List ℕ) → IsValue v → NotBlank (v ++ rest)
value-NotBlank _ rest (token v h lt) = token-NotBlank v rest h lt
value-NotBlank _ rest (quoted body h) = (refl, refl)

value-pos : (v : List ℕ) → IsValue v → 0 < length v
value-pos _ (token v h lt) = lt
value-pos _ (quoted body h) = omega arith

module _ (input : List ℕ) where
  room :
      (s : ℕ) (xs rest : List ℕ)
      → At input s (xs ++ rest)
      → 0 < length xs
      → leb (length input) s ≡ false
  room s xs rest a lt = ground (arith, a.within, length-append xs rest)

  get_value_length-At :
      (s : ℕ) (v rest : List ℕ)
      → IsValue v
      → At input s (v ++ rest)
      → Follows rest
      → get_value_length input s ≡ ok (length v)
  unfolding get_value_length includes
  get_value_length-At s _ rest (token v h lt) a f =
      let some_token : (length v == 0) ≡ false = ground arith in
      rw
        (
          room s v rest a lt,
          get_token_length-At input s v rest a h (Follows-Stops rest f),
          some_token,
        )
        refl
  get_value_length-At s _ rest (quoted body h) a f =
      let b = subst (λ t. At input s (quote ∷ t)) (append_assoc body (quote ∷ []) rest) a in
      let size : length body + 2 ≡ length (quote ∷ body ++ quote ∷ []) =
        omega (arith, length-append body (quote ∷ [])) in
      rw
        (
          At-leb quote (body ++ quote ∷ rest) b,
          get_token_length-At input s [] (quote ∷ body ++ quote ∷ rest) b tt refl,
          get_quoted_string_length-At input s body rest h b,
        )
        (ap ok size)

  -- Behind the sign `=`.
  get_value_part-At :
      (s e : ℕ) (n v rest : List ℕ)
      → IsValue v
      → At input e (b'=' ∷ v ++ rest)
      → Follows rest
      → get_value_part input s n e ≡ ok (e + 1 + length v - s, some (name_value n (some v)))
  unfolding get_value_part
  get_value_part-At s e n v rest h a f =
      let b = At-next input e b'=' (v ++ rest) a in
      let c = At-advance input (e + 1) v rest b in
      rw
        (
          skip_no_blank input (e + 1) (v ++ rest) b (value-NotBlank v rest h),
          get_value_length-At (e + 1) v rest h b f,
          At-slice v rest b,
          skip_no_blank input (e + 1 + length v) rest c (Follows-NotBlank rest f),
        )
        refl

  -- Where no sign `=` stands behind a name.
  no_value :
      (s : ℕ) (rest : List ℕ)
      → At input s rest
      → Follows rest
      → ((s == length input) || not (at_index input s == b'=')) ≡ true
  no_value s [] a f = ground (arith, a.within)
  no_value s (c ∷ cs) a f =
      let other : (at_index input s == b'=') ≡ false = rw (At-get_or c cs a, f) refl in
      ground (arith, other)

  item_text-valued : (n v : List ℕ) → IsValue v → item_text (name_value n (some v)) ≡ n ++ b'=' ∷ v
  unfolding item_text
  item_text-valued n v w =
      let some_value : (length v == 0) ≡ false = ground (arith, value-pos v w) in rw some_value refl

  -- getNameValueLength at a printed name and value.
  pub get_name_value_length-At :
      (s : ℕ) (v : NameValueHeaderValue) (rest : List ℕ)
      → IsPrintable v
      → At input s (item_text v ++ rest)
      → Follows rest
      → get_name_value_length input s ≡ ok (length (item_text v), some v)
  unfolding get_name_value_length item_text includes
  get_name_value_length-At s _ rest (alone n h lt) a' f =
      let a = subst (λ t. At input s (t ++ rest)) (append-nil n) a' in
      let b = At-advance input s n rest a in
      let some_input : (length input == 0) ≡ false =
        ground (arith, a.within, length-append n rest) in
      let some_name : (length n == 0) ≡ false = ground arith in
      let size : s + length n - s ≡ length (n ++ []) = rw (append-nil n) (omega arith) in
      let skip = skip_no_blank input (s + length n) rest b (Follows-NotBlank rest f) in
      rw
        (
          get_token_length-At input s n rest a h (Follows-Stops rest f),
          some_input,
          room s n rest a lt,
          some_name,
          skip,
          no_value (s + length n) rest b f,
          skip,
          At-slice n rest a,
        )
        (ap (λ k. ok (k, some (name_value n none))) size)
  get_name_value_length-At s _ rest (valued n v h lt w) a' f =
      let shape = item_text-valued n v w in
      let a =
        subst (λ t. At input s t) (ap (λ t. t ++ rest) shape ∙ append_assoc n (b'=' ∷ v) rest) a' in
      let b = At-advance input s n (b'=' ∷ v ++ rest) a in
      let long = length-append n (b'=' ∷ v ++ rest) in
      let some_input : (length input == 0) ≡ false = ground (arith, a.within, long) in
      let some_name : (length n == 0) ≡ false = ground arith in
      let here = At-get_or b'=' (v ++ rest) b in
      let before : (s + length n == length input) ≡ false = ground (arith, b.within) in
      let size : s + length n + 1 + length v - s ≡ length (item_text (name_value n (some v))) =
        omega (arith, ap length shape, length-append n (b'=' ∷ v)) in
      rw
        (
          get_token_length-At input s n (b'=' ∷ v ++ rest) a h refl,
          some_input,
          room s n (b'=' ∷ v ++ rest) a lt,
          some_name,
          skip_no_blank input (s + length n) (b'=' ∷ v ++ rest) b (refl, refl),
          before,
          here,
          At-slice n (b'=' ∷ v ++ rest) a,
        )
        (get_value_part-At s (s + length n) n v rest w b f
          ∙ ap (λ k. ok (k, some (name_value n (some v)))) size)
