-- ===== src/HttpHeaders/Utilities/Collections.antt =====
-- areEqualCollections of HeaderUtilities.ts as equality of multisets.
use yohira.Common.{
  ℕ, suc, ◌+◌, ◌≡◌, ◌↔◌, refl, sym, ap, ◌∙◌, Bool, true, false, List, [], ◌∷◌, ◌==◌, if◌then◌else◌,
  length, replicate, Option, none, some, arith, Bool-cases, Option-cases, inl, inr, subst,
}
use yohira.HttpHeaders.Utilities.{find_item, find_all, are_equal_collections}

pub record IsEquivalence {ℓ} {T : Type ℓ} (equals : T → T → Bool) : Type ℓ where
  pub reflexive : (x : T) → equals x x ≡ true
  pub symmetric : (x y : T) → equals x y ≡ true → equals y x ≡ true
  pub transitive : (x y z : T) → equals x y ≡ true → equals y z ≡ true → equals x z ≡ true

-- The items of a collection; an undefined one has none.
abbrev pub listed {ℓ} : {T : Type ℓ} → Option (List T) → List T
listed none = []
listed (some xs) = xs

-- How many items of the list equal `a`.
abbrev pub count {ℓ} : {T : Type ℓ} → (T → T → Bool) → T → List T → ℕ
count equals a [] = 0
count equals a (x ∷ xs) = (if equals a x then 1 else 0) + count equals a xs

-- The items that are not yet found.
abbrev unmarked {ℓ} : {T : Type ℓ} → List T → List Bool → List T
unmarked [] marks = []
unmarked (y ∷ ys) [] = []
unmarked (y ∷ ys) (true ∷ marks) = unmarked ys marks
unmarked (y ∷ ys) (false ∷ marks) = y ∷ unmarked ys marks

module _ {T : Type 0} (equals : T → T → Bool) (q : IsEquivalence equals) where
  -- Equal items are counted alike.
  same_test : (a x y : T) → equals x y ≡ true → equals a x ≡ equals a y
  same_test a x y h = elim (Bool-cases (equals a x)) [
    | inl p ↦ p ∙ sym (q.transitive a x y p h)
    | inr p ↦ elim (Bool-cases (equals a y)) [
      | inl r ↦ cc (q.transitive a y x r (q.symmetric x y h))
      | inr r ↦ p ∙ sym r
    ]
  ]

  -- One list of items holds what the other does and an item equal to `x`.
  abbrev Removes : T → List T → List T → Type 0
  Removes x ys zs =
      ((a : T) → count equals a ys ≡ (if equals a x then 1 else 0) + count equals a zs)
      × (length ys ≡ suc (length zs))

  Removes-cons : (x y : T) (ys zs : List T) → Removes x ys zs → Removes x (y ∷ ys) (y ∷ zs)
  Removes-cons x y ys zs (counts, n) = (λ a. omega (arith, counts a), omega (arith, n))

  find_item-some :
      (x : T) (ys : List T) (marks new : List Bool)
      → find_item equals x ys marks ≡ some new
      → Removes x (unmarked ys marks) (unmarked ys new)
  unfolding find_item
  find_item-some x [] marks new h = absurd (ground arith)
  find_item-some x (y ∷ ys) [] new h = absurd (ground arith)
  find_item-some x (y ∷ ys) (true ∷ marks) new h =
      elim (Option-cases (find_item equals x ys marks)) [
        | inl e ↦ absurd (ground arith)
        | inr (rest, e) ↦
            let same : true ∷ rest ≡ new = ground arith in
            subst (λ l. Removes x (unmarked ys marks) (unmarked (y ∷ ys) l)) same
              (find_item-some x ys marks rest e)
      ]
  find_item-some x (y ∷ ys) (false ∷ marks) new h = elim (Bool-cases (equals x y)) [
    | inl p ↦
        let same : true ∷ marks ≡ new = ground arith in
        subst (λ l. Removes x (y ∷ unmarked ys marks) (unmarked (y ∷ ys) l)) same
          (
            λ a.
                ap (λ b. (if b then 1 else 0) + count equals a (unmarked ys marks))
                  (sym (same_test a x y p)),
            refl,
          )
    | inr p ↦ elim (Option-cases (find_item equals x ys marks)) [
      | inl e ↦ absurd (ground arith)
      | inr (rest, e) ↦
          let same : false ∷ rest ≡ new = ground arith in
          subst (λ l. Removes x (y ∷ unmarked ys marks) (unmarked (y ∷ ys) l)) same
            (Removes-cons x y _ _ (find_item-some x ys marks rest e))
    ]
  ]

  find_item-none :
      (x : T) (ys : List T) (marks : List Bool)
      → find_item equals x ys marks ≡ none
      → count equals x (unmarked ys marks) ≡ 0
  unfolding find_item
  find_item-none x [] marks h = refl
  find_item-none x (y ∷ ys) [] h = refl
  find_item-none x (y ∷ ys) (true ∷ marks) h = ground (arith, find_item-none x ys marks)
  find_item-none x (y ∷ ys) (false ∷ marks) h = ground (arith, find_item-none x ys marks)

  count_empty : (zs : List T) → 0 ≡ length zs → (a : T) → 0 ≡ count equals a zs
  count_empty [] n a = refl
  count_empty (z ∷ zs) n a = absurd (omega arith)

  no_items : (zs : List T) → ((a : T) → 0 ≡ count equals a zs) → 0 ≡ length zs
  no_items [] h = refl
  no_items (z ∷ zs) h = absurd (ground (arith, h z, q.reflexive z))

  find_all_sound :
      (xs ys : List T) (marks : List Bool)
      → find_all equals xs ys marks ≡ true
      → length xs ≡ length (unmarked ys marks)
      → (a : T) → count equals a xs ≡ count equals a (unmarked ys marks)
  unfolding find_all
  find_all_sound [] ys marks h n a = count_empty (unmarked ys marks) n a
  find_all_sound (x ∷ xs) ys marks h n a = elim (Option-cases (find_item equals x ys marks)) [
    | inl e ↦ absurd (ground arith)
    | inr (new, e) ↦
        let (counts, size) = find_item-some x ys marks new e in
        let rest : find_all equals xs ys new ≡ true = ground arith in
        omega (arith, counts a, find_all_sound xs ys new rest (omega (arith, n, size)) a)
  ]

  find_all_complete :
      (xs ys : List T) (marks : List Bool)
      → ((a : T) → count equals a xs ≡ count equals a (unmarked ys marks))
      → (find_all equals xs ys marks ≡ true) × (length xs ≡ length (unmarked ys marks))
  unfolding find_all
  find_all_complete [] ys marks h = (refl, no_items (unmarked ys marks) h)
  find_all_complete (x ∷ xs) ys marks h = elim (Option-cases (find_item equals x ys marks)) [
    | inl e ↦ absurd (ground (arith, h x, q.reflexive x, find_item-none x ys marks e))
    | inr (new, e) ↦
        let (counts, size) = find_item-some x ys marks new e in
        let (found, n) = find_all_complete xs ys new (λ a. omega (arith, h a, counts a)) in
        (rw (e, find_all) found, omega (arith, n, size))
  ]

  unmarked_all : (ys : List T) → unmarked ys (replicate (length ys) false) ≡ ys
  unmarked_all [] = refl
  unmarked_all (y ∷ ys) = ap (◌∷◌ y) (unmarked_all ys)

  unmarked_same :
      (xs ys : List T) → length xs ≡ length ys → unmarked ys (replicate (length xs) false) ≡ ys
  unmarked_same xs ys n = ap (λ k. unmarked ys (replicate k false)) n ∙ unmarked_all ys

  equal_lists_sound :
      (xs ys : List T)
      → are_equal_collections equals (some xs) (some ys) ≡ true
      → (a : T) → count equals a xs ≡ count equals a ys
  unfolding are_equal_collections
  equal_lists_sound xs ys h a = elim (Bool-cases (length xs == length ys)) [
    | inr p ↦ absurd (ground (arith, h, p))
    | inl p ↦
        let n : length xs ≡ length ys = ground arith in
        elim (Bool-cases (length xs == 0)) [
          | inl z ↦ sym (count_empty xs (ground arith) a) ∙ count_empty ys (ground (arith, n, z)) a
          | inr z ↦
              let found : find_all equals xs ys (replicate (length xs) false) ≡ true =
                ground (arith, h, p, z) in
              let same = unmarked_same xs ys n in
              find_all_sound xs ys (replicate (length xs) false) found (n ∙ sym (ap length same)) a
              ∙ ap (count equals a) same
        ]
  ]

  equal_lists_complete :
      (xs ys : List T)
      → ((a : T) → count equals a xs ≡ count equals a ys)
      → are_equal_collections equals (some xs) (some ys) ≡ true
  unfolding are_equal_collections
  equal_lists_complete xs ys h =
      let marks = replicate (length ys) false in
      let (found, size) =
        find_all_complete xs ys marks (λ a. h a ∙ ap (count equals a) (sym (unmarked_all ys))) in
      let n : length xs ≡ length ys = size ∙ ap length (unmarked_all ys) in
      let p : (length xs == length ys) ≡ true = ground arith in
      elim (Bool-cases (length xs == 0)) [
        | inl z ↦ rw (p, z) refl
        | inr z ↦ rw (p, z) (ap (λ k. find_all equals xs ys (replicate k false)) n ∙ found)
      ]

-- For a comparer that is an equivalence: areEqualCollections returns true exactly where every item has
-- as many equal items in one collection as in the other, an undefined collection counted as empty.
pub are_equal_collections-count :
    {T : Type 0} (equals : T → T → Bool)
    → IsEquivalence equals
    → (x y : Option (List T))
    → (are_equal_collections equals x y ≡ true)
      ↔ ((a : T) → count equals a (listed x) ≡ count equals a (listed y))
unfolding are_equal_collections
are_equal_collections-count equals q none none = (λ h a. refl, λ h. refl)
are_equal_collections-count equals q none (some y) = (
  λ h a. count_empty equals q y (ground arith) a,
  λ h. let n = no_items equals q y h in ground arith,
)
are_equal_collections-count equals q (some x) none = (
  λ h a. sym (count_empty equals q x (ground arith) a),
  λ h. let n = no_items equals q x (λ a. sym (h a)) in ground arith,
)
are_equal_collections-count equals q (some x) (some y) =
    (equal_lists_sound equals q x y, equal_lists_complete equals q x y)
