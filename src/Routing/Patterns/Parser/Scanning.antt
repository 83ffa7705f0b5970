-- ===== src/Routing/Patterns/Parser/Scanning.antt =====
-- RoutePatternParser.ts and RouteParameterParser.ts at a printed part.
use yohira.Common.{
  ℕ, zero, suc, ◌+◌, ◌<◌, ◌≡◌, refl, sym, ap, ◌∙◌, true, false, List, [], ◌∷◌, ◌++◌, ltb, ◌==◌,
  if◌then◌else◌, length, length-append, ok, arith, All, Bool-cases, inl, inr, At, At-next,
  At-get_elem?,
}
use yohira.Routing.Patterns.Parser.{current_is, replace_pairs, decode, literal_end, parameter_end}

-- A character that stands for itself in a pattern.
abbrev pub IsPlainChar : ℕ → Type 0
IsPlainChar c =
    ((c == b'/') ≡ false) × ((c == b'{') ≡ false) × ((c == b'}') ≡ false) × ((c == b'?') ≡ false)

abbrev pub IsPlainText : List ℕ → Type 0
IsPlainText = All IsPlainChar

-- What a literal stops at: the end, a separator, or an open brace that is not doubled.
pub data StopsLiteral : List ℕ → Type 0 where
  at_end : StopsLiteral []
  at_separator : (rest : List ℕ) → StopsLiteral (b'/' ∷ rest)
  at_brace : (c : ℕ) (rest : List ℕ) → (c == b'{') ≡ false → StopsLiteral (b'{' ∷ c ∷ rest)

module _ (template : List ℕ) where
  pub current_is-At :
      (i c d : ℕ) (rest : List ℕ) → At template i (c ∷ rest) → current_is template i d ≡ (c == d)
  current_is-At i c d rest a = rw (At-get_elem? c rest a, current_is) refl

  -- Inside a literal.
  literal_step :
      (f i c : ℕ) (rest : List ℕ)
      → IsPlainChar c
      → At template i (c ∷ rest)
      → literal_end (suc f) template i
        ≡ (if ltb (i + 1) (length template) then literal_end f template (i + 1) else ok (i + 1))
  unfolding literal_end
  literal_step f i c rest (p, q, r, s) a =
      rw
        (
          current_is-At i c b'/' rest a,
          p,
          current_is-At i c b'{' rest a,
          q,
          current_is-At i c b'}' rest a,
          r,
        )
        refl

  literal_stop :
      (f i : ℕ) (rest : List ℕ)
      → StopsLiteral rest
      → At template i rest
      → 0 < length rest
      → literal_end (suc f) template i ≡ ok i
  unfolding literal_end
  literal_stop f i _ at_end a lt = elim lt [ ]
  literal_stop f i _ (at_separator rest) a lt = rw (current_is-At i b'/' b'/' rest a) refl
  literal_stop f i _ (at_brace c rest h) a lt =
      let more : ltb (i + 1) (length template) ≡ true = ground (arith, a.within) in
      let next = At-next template i b'{' (c ∷ rest) a in
      rw
        (
          current_is-At i b'{' b'/' (c ∷ rest) a,
          current_is-At i b'{' b'{' (c ∷ rest) a,
          more,
          current_is-At (i + 1) c b'{' rest next,
          h,
        )
        refl

  pub literal_end-At :
      (f i c : ℕ) (text rest : List ℕ)
      → length text + 1 < f
      → IsPlainText (c ∷ text)
      → StopsLiteral rest
      → At template i (c ∷ text ++ rest)
      → literal_end f template i ≡ ok (i + 1 + length text)
  literal_end-At zero i c text rest lt p s a = elim lt [ ]
  literal_end-At (suc zero) i c text rest lt p s a = absurd (omega (arith, lt))
  literal_end-At (suc (suc f)) i c [] rest lt p s a =
      let next = At-next template i c rest a in
      let here : i + 1 ≡ i + 1 + 0 = omega arith in
      literal_step (suc f) i c rest p.0 a ∙ elim (Bool-cases (ltb (i + 1) (length template))) [
        | inl q ↦
            rw q (literal_stop f (i + 1) rest s next (ground (arith, q, next.within)) ∙ ap ok here)
        | inr q ↦ rw q (ap ok here)
      ]
  literal_end-At (suc f) i c (d ∷ text) rest lt p s a =
      let next = At-next template i c (d ∷ text ++ rest) a in
      let more : ltb (i + 1) (length template) ≡ true = ground (arith, next.within) in
      let same : i + 1 + 1 + length text ≡ i + 1 + suc (length text) = omega arith in
      literal_step f i c (d ∷ text ++ rest) p.0 a
      ∙ rw more (literal_end-At f (i + 1) d text rest (omega (arith, lt)) p.1 s next ∙ ap ok same)

  -- Inside a parameter, and at its end.
  pub parameter_end-At :
      (f i : ℕ) (text rest : List ℕ)
      → length text < f
      → All (λ c. ((c == b'{') ≡ false) × ((c == b'}') ≡ false)) text
      → current_is template (i + length text + 1) b'}' ≡ false
      → At template i (text ++ b'}' ∷ rest)
      → parameter_end f template i ≡ ok (i + length text + 1)
  unfolding parameter_end
  parameter_end-At zero i text rest lt p s a = elim lt [ ]
  parameter_end-At (suc f) i [] rest lt p s a =
      let same : i + 0 + 1 ≡ i + 1 = omega arith in
      let other : current_is template (i + 1) b'}' ≡ false =
        ap (λ k. current_is template k b'}') (sym same) ∙ s in
      rw (current_is-At i b'}' b'{' rest a, current_is-At i b'}' b'}' rest a)
        (elim (Bool-cases (ltb (i + 1) (length template))) [
          | inl q ↦ rw (q, other) (ap ok (sym same))
          | inr q ↦ rw q (ap ok (sym same))
        ])
  parameter_end-At (suc f) i (c ∷ text) rest lt p s a =
      let more : ltb (i + 1) (length template) ≡ true =
        ground (arith, a.within, length-append text (b'}' ∷ rest)) in
      let next = At-next template i c (text ++ b'}' ∷ rest) a in
      let same : i + 1 + length text + 1 ≡ i + suc (length text) + 1 = omega arith in
      rw
        (
          current_is-At i c b'{' (text ++ b'}' ∷ rest) a,
          p.0.0,
          current_is-At i c b'}' (text ++ b'}' ∷ rest) a,
          p.0.1,
          more,
        )
        (parameter_end-At f (i + 1) text rest (omega (arith, lt)) p.1
            (ap (λ k. current_is template k b'}') same ∙ s) next
          ∙ ap ok same)

-- Decoding leaves text without braces as it is.
replace_pairs-same :
    (d : ℕ) (text : List ℕ) → All (λ c. (c == d) ≡ false) text → replace_pairs d text ≡ text
unfolding replace_pairs
replace_pairs-same d [] h = refl
replace_pairs-same d (x ∷ []) h = refl
replace_pairs-same d (x ∷ y ∷ text) h =
    rw (h.0, replace_pairs) (ap (◌∷◌ x) (replace_pairs-same d (y ∷ text) h.1))

abbrev pub NoBraces : List ℕ → Type 0
NoBraces = All (λ c. ((c == b'{') ≡ false) × ((c == b'}') ≡ false))

pub decode-same : (text : List ℕ) → NoBraces text → decode text ≡ text
decode-same text h =
    ap (replace_pairs b'{') (replace_pairs-same b'}' text (closing text h))
    ∙ replace_pairs-same b'{' text (opening text h)
  where
    closing : (text : List ℕ) → NoBraces text → All (λ c. (c == b'}') ≡ false) text
    closing [] h = tt
    closing (c ∷ text) h = (h.0.1, closing text h.1)

    opening : (text : List ℕ) → NoBraces text → All (λ c. (c == b'{') ≡ false) text
    opening [] h = tt
    opening (c ∷ text) h = (h.0.0, opening text h.1)
