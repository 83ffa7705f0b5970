-- ===== src/Routing/Patterns/Parser/Progress.antt =====
-- RoutePatternParser.ts: the checks that should never fail do not, and its loops end.
use yohira.Common.{
  ℕ, zero, suc, ◌+◌, ◌-◌, ◌≤◌, ◌<◌, ◌≡◌, ◌⊎◌, refl, Bool, true, false, not, ◌&&◌, List, [], ◌∷◌,
  ◌++◌, ltb, ltb→lt, ◌==◌, if◌then◌else◌, length, slice, drop, length-take, length-drop, Result, ok,
  err, and_then, arith, Bool-cases, inl, inr, includes, All,
}
use yohira.Routing.Patterns.{
  RouteError, RoutePatternPart, create_literal_part, empty_part, not_supported, assertion_failed,
  infinite_loop, out_of_fuel, separator,
}
use yohira.Routing.Patterns.Parser.{
  current_is, replace_pairs, decode, literal_end, is_valid_literal, parse_literal, parameter_end,
}

-- The errors of checks that the code makes of itself.
abbrev pub is_internal : RouteError → Bool
is_internal empty_part = true
is_internal not_supported = true
is_internal assertion_failed = true
is_internal infinite_loop = true
is_internal out_of_fuel = true
is_internal _ = false

-- A run that ends with a value of which P holds, or with an error about the pattern.
abbrev pub Safe : {A : Type 0} → (A → Type 0) → Result RouteError A → Type 0
Safe P (ok a) = P a
Safe P (err e) = is_internal e ≡ false

pub Safe-then :
    {A : Type 0} {B : Type 0} (P : A → Type 0) (Q : B → Type 0) (m : Result RouteError A)
    (k : A → Result RouteError B)
    → Safe P m
    → ((a : A) → P a → Safe Q (k a))
    → Safe Q (and_then m k)
Safe-then P Q (ok a) k h f = f a h
Safe-then P Q (err e) k h f = h

pub Safe-if :
    {A : Type 0} (P : A → Type 0) (b : Bool) (x y : Result RouteError A)
    → (b ≡ true → Safe P x)
    → (b ≡ false → Safe P y)
    → Safe P (if b then x else y)
Safe-if P true x y f g = f refl
Safe-if P false x y f g = g refl

replace_pairs-pos : (c x : ℕ) (xs : List ℕ) → 0 < length (replace_pairs c (x ∷ xs))
unfolding replace_pairs
replace_pairs-pos c x [] = omega arith
replace_pairs-pos c x (y ∷ xs) = elim (Bool-cases ((x == c) && (y == c))) [
  | inl p ↦ rw (p, replace_pairs) (omega arith)
  | inr p ↦ rw (p, replace_pairs) (omega arith)
]

decode-pos : (xs : List ℕ) → 0 < length xs → 0 < length (decode xs)
decode-pos xs lt = pos (replace_pairs b'}' xs) (pairs xs lt)
  where
    pairs : (xs : List ℕ) → 0 < length xs → 0 < length (replace_pairs b'}' xs)
    pairs [] lt = elim lt [ ]
    pairs (x ∷ xs) lt = replace_pairs-pos b'}' x xs

    pos : (xs : List ℕ) → 0 < length xs → 0 < length (replace_pairs b'{' xs)
    pos [] lt = elim lt [ ]
    pos (x ∷ xs) lt = replace_pairs-pos b'{' x xs

-- A part as it is read: separators are made of literals only afterwards.
abbrev pub IsRead : RoutePatternPart → Type 0
IsRead (separator content) = ⊥
IsRead _ = Unit {0}

pub All-push :
    {A : Type 0} (P : A → Type 0) (xs : List A) (x : A) → All P xs → P x → All P (xs ++ x ∷ [])
All-push P [] x c d = (d, tt)
All-push P (y ∷ ys) x c d = (c.0, All-push P ys x c.1 d)

module _ (template : List ℕ) where
  -- An index up to the end, from `index` on, and behind it.
  abbrev From : ℕ → ℕ → Type 0
  From index j = (index ≤ j) × (j ≤ length template)

  abbrev pub Behind : ℕ → ℕ → Type 0
  Behind index j = (index < j) × (j ≤ length template)

  -- A turn of the loop that goes on behind `index`.
  go_on :
      (f index j : ℕ)
      → index < j
      → j ≤ length template
      → (ltb j (length template) ≡ true → Safe (From j) (literal_end f template j))
      → Safe (Behind index) (if ltb j (length template) then literal_end f template j else ok j)
  go_on f index j lt le h =
      Safe-if (Behind index) (ltb j (length template)) _ _
        (λ p. weaken (literal_end f template j) (h p)) (λ p. (lt, le))
    where
      weaken : (m : Result RouteError ℕ) → Safe (From j) m → Safe (Behind index) m
      weaken (ok k) s = (omega (arith, s.0, lt), s.1)
      weaken (err e) s = s

  -- A turn of the loop of parseLiteral: it stops where it stands, goes on, or fails.
  literal_turn :
      (P : ℕ → Type 0) (f index : ℕ)
      → index < length template
      → ((j : ℕ)
          → index < j
          → j ≤ length template
          → Safe P (if ltb j (length template) then literal_end f template j else ok j))
      → (current_is template index b'/' ≡ true → P index)
      → (current_is template index b'{' ≡ true
          → current_is template (index + 1) b'{' ≡ false
          → P index)
      → Safe P (literal_end (suc f) template index)
  unfolding literal_end
  literal_turn P f index lt step slash brace =
      let n = length template in
      Safe-if P (current_is template index b'/') _ _ slash λ p.
        Safe-if P (current_is template index b'{') _ _
          (λ q.
            Safe-if P (not (ltb (index + 1) n)) _ _ (λ r. refl)
              λ r.
                Safe-if P (current_is template (index + 1) b'{') _ _
                  (λ s. step (index + 2) (omega arith) (ground (arith, r))) (brace q))
          λ q.
            Safe-if P (current_is template index b'}') _ _
              (λ q.
                Safe-if P (not (ltb (index + 1) n)) _ _ (λ r. refl)
                  λ r.
                    Safe-if P (current_is template (index + 1) b'}') _ _
                      (λ s. step (index + 2) (omega arith) (ground (arith, r))) (λ s. refl))
              (λ q. step (index + 1) (omega arith) (omega (arith, lt)))

  literal_end-Safe :
      (f index : ℕ)
      → index < length template
      → length template < f + index
      → Safe (From index) (literal_end f template index)
  literal_end-Safe zero index lt h = absurd (omega arith)
  literal_end-Safe (suc f) index lt h =
      literal_turn (From index) f index lt
        (λ j q le. behind_from _ (
          go_on f index j q le
            (λ p. literal_end-Safe f j (ltb→lt j (length template) p) (omega (arith, h, q)))))
        (λ p. (omega arith, omega (arith, lt))) (λ p q. (omega arith, omega (arith, lt)))
    where
      behind_from : (m : Result RouteError ℕ) → Safe (Behind index) m → Safe (From index) m
      behind_from (ok k) s = (omega (arith, s.0), s.1)
      behind_from (err e) s = s

  -- Where a literal begins, the loop goes on.
  literal_end-Behind :
      (f index : ℕ)
      → index < length template
      → length template < suc f + index
      → current_is template index b'/' ≡ false
      → (current_is template index b'{' ≡ false) ⊎ (current_is template (index + 1) b'{' ≡ true)
      → Safe (Behind index) (literal_end (suc f) template index)
  literal_end-Behind f index lt h no_slash start =
      literal_turn (Behind index) f index lt
        (λ j q le.
          go_on f index j q le
            (λ p. literal_end-Safe f j (ltb→lt j (length template) p) (omega (arith, h, q))))
        (λ p. cc) (λ p q. elim start [ inl a ↦ cc | inr a ↦ cc ])

  pub parameter_end-Safe :
      (f index : ℕ)
      → index < length template
      → length template < f + index
      → Safe (Behind index) (parameter_end f template index)
  unfolding parameter_end
  parameter_end-Safe zero index lt h = absurd (omega arith)
  parameter_end-Safe (suc f) index lt h =
      let n = length template in
      let P = Behind index in
      let step = λ (j : ℕ) (q : index < j) (p : ltb j n ≡ true).
        weaken j q (parameter_end f template j)
          (parameter_end-Safe f j (ltb→lt j n p) (omega (arith, h, q))) in
      let escaped =
        Safe-if P (ltb (index + 2) n) _ _ (step (index + 2) (omega arith)) (λ p. refl) in
      Safe-if P (current_is template index b'{') _ _
        (λ p.
          Safe-if P (not (ltb (index + 1) n)) _ _ (λ q. refl)
            λ q. Safe-if P (current_is template (index + 1) b'{') _ _ (λ r. escaped) (λ r. refl))
        λ p.
          Safe-if P (current_is template index b'}') _ _
            (λ q.
              Safe-if P (not (ltb (index + 1) n)) _ _ (λ r. (omega arith, omega (arith, lt)))
                λ r.
                  Safe-if P (current_is template (index + 1) b'}') _ _ (λ s. escaped)
                    (λ s. (omega arith, omega (arith, lt))))
            (λ q. Safe-if P (ltb (index + 1) n) _ _ (step (index + 1) (omega arith)) (λ r. refl))
    where
      weaken :
          (j : ℕ)
          → index < j
          → (m : Result RouteError ℕ) → Safe (Behind j) m
          → Safe (Behind index) m
      weaken j q (ok k) s = (omega (arith, s.0, q), s.1)
      weaken j q (err e) s = s

  -- What is left of the input at an index.
  abbrev pub Starts : ℕ → Type 0
  Starts index = (index < length template) × (current_is template index b'/' ≡ false)

  abbrev pub BehindPart : ℕ → RoutePatternPart × ℕ → Type 0
  BehindPart index r = Behind index r.1 × IsRead r.0

  pub parse_literal-Safe :
      (index : ℕ)
      → Starts index
      → (current_is template index b'{' ≡ false) ⊎ (current_is template (index + 1) b'{' ≡ true)
      → Safe (BehindPart index) (parse_literal template index)
  unfolding parse_literal is_valid_literal create_literal_part
  parse_literal-Safe index (lt, no_slash) start =
      Safe-then (Behind index) (BehindPart index)
        (literal_end (suc (length template)) template index) _
        (literal_end-Behind (length template) index lt (omega arith) no_slash start)
        λ j (q, le).
          let size : 0 < length (slice template index j) =
            omega
              (arith, length-take (j - index) (drop index template), length-drop index template) in
          made j (decode (slice template index j)) (decode-pos _ size) (q, le)
    where
      made :
          (j : ℕ) (text : List ℕ)
          → 0 < length text
          → Behind index j
          → Safe (BehindPart index) (
              and_then
                (is_valid_literal text)
                λ _. and_then (create_literal_part text) λ part. ok (part, j))
      made j [] lt b = elim lt [ ]
      made j (c ∷ cs) lt b =
          Safe-then (λ _. Unit {0}) (BehindPart index) _ _
            (Safe-if (λ _. Unit {0}) (includes (c ∷ cs) b'?') _ _ (λ p. refl) (λ p. tt))
            λ _ _.
              Safe-then IsRead (BehindPart index) _ _
                (Safe-if IsRead (includes (c ∷ cs) b'?') _ _ (λ p. refl) (λ p. tt))
                λ _ content. (b, content)
