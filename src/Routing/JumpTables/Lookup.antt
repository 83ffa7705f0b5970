-- ===== src/Routing/JumpTables/Lookup.antt =====
-- JumpTableBuilder.ts and the tables that it chooses from, against one search of the entries.
use yohira.Common.{
  ℕ, ◌≡◌, ◌≢◌, refl, sym, ap, ap₂, ◌∙◌, Bool, true, false, List, [], ◌∷◌, ◌==◌, if◌then◌else◌,
  length, Option, none, some, ℤ, negsuc, eqb_ℤ, ok, arith, All, Bool-cases, inl, inr,
}
use yohira.Routing.Tokenizer.{PathSegment, text}
use yohira.Routing.JumpTables.{
  eqb, or_default, Entries, map_get, map_set, JumpTable, single_entry_ascii, single_entry, is_ascii,
  ignore_case_equals, fill_map, get_destination, choose_table, build_jump_table,
}

pub eqb→eq : (xs ys : List ℕ) → eqb xs ys ≡ true → xs ≡ ys
unfolding eqb
eqb→eq [] [] h = refl
eqb→eq [] (y ∷ ys) h = ground arith
eqb→eq (x ∷ xs) [] h = ground arith
eqb→eq (x ∷ xs) (y ∷ ys) h =
    let first : x ≡ y = ground arith in
    let rest : eqb xs ys ≡ true = ground arith in ap₂ ◌∷◌ first (eqb→eq xs ys rest)

pub eqb_refl : (xs : List ℕ) → eqb xs xs ≡ true
unfolding eqb
eqb_refl [] = refl
eqb_refl (x ∷ xs) = ground (arith, eqb_refl xs)

differs : (i k j : List ℕ) → eqb i k ≡ false → eqb i j ≡ true → eqb k j ≡ false
differs i k j p q = elim (Bool-cases (eqb k j)) [
  | inl r ↦
      let same : i ≡ k = eqb→eq i j q ∙ sym (eqb→eq k j r) in
      let yes : eqb i k ≡ true = ap (λ x. eqb x k) same ∙ eqb_refl k in ground arith
  | inr r ↦ r
]

map_get-map_set :
    (m : Entries) (k j : List ℕ) (v : ℤ)
    → map_get (map_set m k v) j ≡ (if eqb k j then some v else map_get m j)
unfolding map_get map_set
map_get-map_set [] k j v = refl
map_get-map_set ((i, w) ∷ m) k j v = elim (Bool-cases (eqb i k)) [
  | inl p ↦
      let same : eqb k j ≡ eqb i j = ap (λ x. eqb x j) (sym (eqb→eq i k p)) in
      elim (Bool-cases (eqb i j)) [ inl q ↦ rw (p, same, q) refl | inr q ↦ rw (p, same, q) refl ]
  | inr p ↦ elim (Bool-cases (eqb i j)) [
    | inl q ↦ let other : eqb k j ≡ false = differs i k j p q in rw (p, q, other) refl
    | inr q ↦ rw (p, q) (map_get-map_set m k j v)
  ]
]

abbrev pub or_else : Option ℤ → Option ℤ → Option ℤ
or_else (some d) o = some d
or_else none o = o

or_else_if :
    (o rest : Option ℤ) (b : Bool) (v : ℤ)
    → or_else o (if b then some v else rest) ≡ or_else (or_else o (if b then some v else none)) rest
or_else_if (some d) rest b v = refl
or_else_if none rest true v = refl
or_else_if none rest false v = refl

or_else_none : (o : Option ℤ) → or_else o none ≡ o
or_else_none (some d) = refl
or_else_none none = refl

module _ (lower : List ℕ → List ℕ) where
  -- The destination of the last entry that equals the text, case ignored.
  abbrev pub last_match : Entries → List ℕ → Option ℤ
  last_match [] t = none
  last_match ((k, v) ∷ entries) t =
      or_else (last_match entries t) (if ignore_case_equals lower k t then some v else none)

  map_get-fill_map :
      (m entries : Entries) (t : List ℕ)
      → map_get (fill_map lower m entries) (lower t)
        ≡ or_else (last_match entries t) (map_get m (lower t))
  unfolding fill_map
  map_get-fill_map m [] t = refl
  map_get-fill_map m ((k, v) ∷ entries) t =
      map_get-fill_map (map_set m (lower k) v) entries t
      ∙ ap (or_else (last_match entries t)) (map_get-map_set m (lower k) (lower t) v)
      ∙ or_else_if (last_match entries t) (map_get m (lower t)) (eqb (lower k) (lower t)) v

  -- `toLowerCase` keeps the string's length, as it does but for a few letters such as U+0130.
  abbrev pub KeepsLength : List ℕ → Type 0
  KeepsLength t = length (lower t) ≡ length t

  longer_differs :
      (a t : List ℕ)
      → KeepsLength a
      → KeepsLength t
      → length a ≢ length t
      → ignore_case_equals lower a t ≡ false
  longer_differs a t h k ne = elim (Bool-cases (ignore_case_equals lower a t)) [
    | inl p ↦
        let same : length (lower a) ≡ length (lower t) = ap length (eqb→eq (lower a) (lower t) p) in
        elim (ne (sym h ∙ same ∙ k)) [ ]
    | inr p ↦ p
  ]

  eqb_comm : (xs ys : List ℕ) → eqb xs ys ≡ eqb ys xs
  unfolding eqb
  eqb_comm [] [] = refl
  eqb_comm [] (y ∷ ys) = refl
  eqb_comm (x ∷ xs) [] = refl
  eqb_comm (x ∷ xs) (y ∷ ys) = ground (arith, eqb_comm xs ys)

  -- Both tables of one entry.
  one_entry :
      (default exit d : ℤ) (t path : List ℕ) (s : PathSegment)
      → length (text path s) ≡ s.length
      → KeepsLength (text path s)
      → KeepsLength t
      → let found = or_default (last_match ((t, d) ∷ []) (text path s)) default in
        let expected = if s.length == 0 then exit else found in
        (get_destination lower (single_entry_ascii default exit t d) path s ≡ expected)
        × (get_destination lower (single_entry default exit t d) path s ≡ expected)
  unfolding get_destination
  one_entry default exit d t path s long h k =
      let a = text path s in
      let turned : ignore_case_equals lower t a ≡ ignore_case_equals lower a t =
        eqb_comm (lower t) (lower a) in
      elim (Bool-cases (s.length == length t)) [
        | inl p ↦ elim (Bool-cases (ignore_case_equals lower a t)) [
          | inl q ↦ rw (turned, p, q) (refl, refl)
          | inr q ↦ rw (turned, p, q) (refl, refl)
        ]
        | inr p ↦
            let ne : length a ≢ length t = λ e. ground (arith, e, long, p) in
            let q : ignore_case_equals lower a t ≡ false = longer_differs a t h k ne in
            rw (turned, p, q) (refl, refl)
      ]

  pub get_destination-choose_table :
      (default exit : ℤ) (entries : Entries) (path : List ℕ) (s : PathSegment)
      → length (text path s) ≡ s.length
      → KeepsLength (text path s)
      → All (λ e. KeepsLength (e.0)) entries
      → get_destination lower (choose_table lower default exit entries) path s
        ≡ (if s.length == 0 then exit else or_default (last_match entries (text path s)) default)
  unfolding get_destination choose_table map_get
  get_destination-choose_table default exit [] path s long kept all = refl
  get_destination-choose_table default exit ((t, d) ∷ []) path s long kept (k, _) =
      elim (Bool-cases (is_ascii t)) [
        | inl p ↦ rw p (one_entry default exit d t path s long kept k).0
        | inr p ↦ rw p (one_entry default exit d t path s long kept k).1
      ]
  get_destination-choose_table default exit (e ∷ f ∷ entries) path s long kept all =
      ap (λ o. if s.length == 0 then exit else or_default o default)
        (map_get-fill_map [] (e ∷ f ∷ entries) (text path s)
          ∙ or_else_none (last_match (e ∷ f ∷ entries) (text path s)))

  -- Whatever table is built, it leads to the same place. With destinations that are set, and text
  -- whose length lower case keeps, buildJumpTable ends without an error, and its table leads from a
  -- segment that lies in the path to the exit where the segment is empty, else to the destination of
  -- the last entry whose text equals the segment's, case ignored, else to the default.
  pub get_destination-build_jump_table :
      (default exit : ℤ) (entries : Entries) (path : List ℕ) (s : PathSegment)
      → eqb_ℤ default (negsuc 0) ≡ false
      → eqb_ℤ exit (negsuc 0) ≡ false
      → length (text path s) ≡ s.length
      → KeepsLength (text path s)
      → All (λ e. KeepsLength (e.0)) entries
      → (table : JumpTable) × (build_jump_table lower default exit entries ≡ ok table)
        × (get_destination lower table path s ≡ (
            if s.length == 0 then exit else or_default (last_match entries (text path s)) default))
  unfolding build_jump_table choose_table
  get_destination-build_jump_table default exit entries path s h k long kept all = (
    choose_table lower default exit entries,
    rw (h, k) refl,
    get_destination-choose_table default exit entries path s long kept all,
  )
