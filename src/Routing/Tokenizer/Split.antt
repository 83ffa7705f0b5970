-- ===== src/Routing/Tokenizer/Split.antt =====
-- FastPathTokenizer.ts against a description of the segments that does not search or count.
use yohira.Common.{
  ℕ, zero, suc, ◌+◌, ◌-◌, ◌≤◌, ◌<◌, ◌≡◌, refl, sym, ap, ap₂, ◌∙◌, ◌⊎◌, take_all, take-nil, true,
  false, List, [], ◌∷◌, map, ltb, ltb→lt, ◌==◌, if◌then◌else◌, length, take, drop, length-drop,
  drop-drop, none, some, arith, All, Option-cases, Bool-cases, inl, inr,
}
use yohira.Routing.Tokenizer.{slash, index_of, tokenize_from, tokenize, text}

-- A character before the first piece.
abbrev pub attach : ℕ → List (List ℕ) → List (List ℕ)
attach c [] = (c ∷ []) ∷ []
attach c (p ∷ ps) = (c ∷ p) ∷ ps

-- The pieces between slashes.
abbrev pub split : List ℕ → List (List ℕ)
split [] = [] ∷ []
split (c ∷ cs) = if c == slash then [] ∷ split cs else attach c (split cs)

-- A trailing slash opens no segment.
abbrev pub trim : List (List ℕ) → List (List ℕ)
trim [] = []
trim (p ∷ q ∷ ps) = p ∷ trim (q ∷ ps)
trim ([] ∷ []) = []
trim ((c ∷ p) ∷ []) = (c ∷ p) ∷ []

index_of-cons :
    (x : ℕ) (xs : List ℕ)
    → (((x == slash) ≡ true) × (index_of slash (x ∷ xs) ≡ some 0))
      ⊎ (((x == slash) ≡ false)
          × (((index_of slash xs ≡ none) × (index_of slash (x ∷ xs) ≡ none))
              ⊎ ((i : ℕ) × (index_of slash xs ≡ some i)
                  × (index_of slash (x ∷ xs) ≡ some (suc i)))))
index_of-cons x xs = elim (Bool-cases (x == slash)) [
  | inl p ↦ inl (p, rw p refl)
  | inr p ↦ elim (Option-cases (index_of slash xs)) [
    | inl q ↦ inr (p, inl (q, rw (p, q) refl))
    | inr (i, q) ↦ inr (p, inr (i, q, rw (p, q) refl))
  ]
]

split-none : (xs : List ℕ) → index_of slash xs ≡ none → split xs ≡ xs ∷ []
split-none [] h = refl
split-none (x ∷ xs) h = elim (index_of-cons x xs) [
  | inl (p, q) ↦ ground arith
  | inr (p, inl (q, r)) ↦ rw (p, split-none xs q) refl
  | inr (p, inr (i, q, r)) ↦ ground arith
]

split-some :
    (xs : List ℕ) (e : ℕ)
    → index_of slash xs ≡ some e
    → (split xs ≡ take e xs ∷ split (drop (suc e) xs)) × (e < length xs)
split-some [] e h = ground arith
split-some (x ∷ xs) zero h = elim (index_of-cons x xs) [
  | inl (p, q) ↦ (rw p refl, omega arith)
  | inr (p, inl (q, r)) ↦ ground arith
  | inr (p, inr (i, q, r)) ↦ ground arith
]
split-some (x ∷ xs) (suc e) h = elim (index_of-cons x xs) [
  | inl (p, q) ↦ ground arith
  | inr (p, inl (q, r)) ↦ ground arith
  | inr (p, inr (i, q, r)) ↦
      let same : i ≡ e = ground arith in
      let (first, lt) = split-some xs e (q ∙ ap some same) in
      (rw (p, first) refl, omega (arith, lt))
]

split-cons : (xs : List ℕ) → (p : List ℕ) × (ps : List (List ℕ)) × (split xs ≡ p ∷ ps)
split-cons [] = ([], [], refl)
split-cons (x ∷ xs) = elim (Bool-cases (x == slash)) [
  | inl p ↦ ([], split xs, rw p refl)
  | inr p ↦ let (q, qs, e) = split-cons xs in (x ∷ q, qs, rw (p, e) refl)
]

trim-split : (p : List ℕ) (xs : List ℕ) → trim (p ∷ split xs) ≡ p ∷ trim (split xs)
trim-split p xs = let (q, qs, e) = split-cons xs in rw e refl

trim_one : (p : List ℕ) → trim (p ∷ []) ≡ (if ltb 0 (length p) then p ∷ [] else [])
trim_one [] = refl
trim_one (c ∷ p) = ground arith

text_lem :
    (path : List ℕ) (start n : ℕ)
    → text path (record { start = start; length = n }) ≡ take n (drop start path)
text_lem path start n =
    let same : start + n - start ≡ n = omega arith in ap (λ k. take k (drop start path)) same

-- A turn of the loop, and its end.
tokenize_from-some :
    (room : ℕ) (path : List ℕ) (start e : ℕ)
    → index_of slash (drop start path) ≡ some e
    → tokenize_from (suc room) path start
      ≡ record { start = start; length = e } ∷ tokenize_from room path (start + e + 1)
unfolding tokenize_from
tokenize_from-some room path start e q = ground arith

tokenize_from-none :
    (room : ℕ) (path : List ℕ) (start : ℕ)
    → let span = drop start path in
      index_of slash span ≡ none
      → tokenize_from (suc room) path start
        ≡ (if ltb 0 (length span) then record { start = start; length = length span } ∷ [] else [])
unfolding tokenize_from
tokenize_from-none room path start q = ground arith

-- The loop from any index.
tokenize_from_lem :
    (room : ℕ) (path : List ℕ) (start : ℕ)
    → (map (text path) (tokenize_from room path start) ≡ take room (trim (split (drop start path))))
      × All (λ s. s.start + s.length ≤ length path) (tokenize_from room path start)
unfolding tokenize_from
tokenize_from_lem zero path start = (refl, tt)
tokenize_from_lem (suc room) path start =
    let span = drop start path in
    let long = length-drop start path in
    elim (Option-cases (index_of slash span)) [
      | inl q ↦ elim (Bool-cases (ltb 0 (length span))) [
        | inl p ↦ (
          rw
              (
                tokenize_from-none room path start q,
                p,
                split-none span q,
                trim_one span,
                p,
                take-nil room,
              )
              (ap (λ t. t ∷ []) (text_lem path start (length span) ∙ take_all span)),
          rw (tokenize_from-none room path start q, p)
              (omega (arith, long, ltb→lt 0 (length span) p), tt),
        )
        | inr p ↦ (
          rw (tokenize_from-none room path start q, p, split-none span q, trim_one span, p) refl,
          rw (tokenize_from-none room path start q, p) tt,
        )
      ]
      | inr (e, q) ↦
          let turn = tokenize_from-some room path start e q in
          let (first, lt) = split-some span e q in
          let (rest, bounds) = tokenize_from_lem room path (start + e + 1) in
          let next : start + suc e ≡ start + e + 1 = omega arith in
          let tail : drop (suc e) span ≡ drop (start + e + 1) path =
            drop-drop start (suc e) path ∙ ap (λ k. drop k path) next in
          (
            rw (turn, first, trim-split (take e span) (drop (suc e) span))
                (ap₂ ◌∷◌ (text_lem path start e)
                  (rest ∙ ap (λ x. take room (trim (split x))) (sym tail))),
            rw turn (omega (arith, long, lt), bounds),
          )
    ]

-- For every path and number of places: the texts of the segments found are the pieces between
-- slashes of the path behind its first character, without a last piece that is empty, as far as
-- there are places; and no segment reaches past the end of the path.
pub tokenize-split :
    (path : List ℕ) (room : ℕ)
    → (map (text path) (tokenize path room) ≡ take room (trim (split (drop 1 path))))
      × All (λ s. s.start + s.length ≤ length path) (tokenize path room)
unfolding tokenize
tokenize-split [] room = (sym (take-nil room), tt)
tokenize-split (c ∷ path) room = tokenize_from_lem room (c ∷ path) 1
