-- ===== src/Common/Sorting.antt =====
-- `Array.prototype.filter`, and the stable `sort`, with what a result's elements and its first are.
use mathlib.Core.Path.{◌≡◌, sym, ap, subst, ◌∙◌}
use mathlib.Core.Bool.{Bool, true, false}
use mathlib.Core.Logic.{◌⊎◌, inl, inr}
use mathlib.Core.List.{List, [], ◌∷◌, ◌++◌}
use mathlib.Core.Option.{Option, none, some, some-injective}
use native.Mathlib.Omega.{arith}
use yohira.Common.Tests.{if◌then◌else◌, Bool-cases}
use yohira.Common.Lists.{All}
use yohira.Common.Integers.{ℤ, pos, ltb_ℤ}
use yohira.Common.Comparers.{IsComparer}

true-false : true ≡ false → ⊥
true-false h = ground arith

module _ {ℓ} {A : Type ℓ} where
  abbrev pub filter : (A → Bool) → List A → List A
  filter p [] = []
  filter p (x ∷ xs) = if p x then x ∷ filter p xs else filter p xs

  -- Before the first element that the comparer puts no earlier.
  abbrev pub insert : (A → A → ℤ) → A → List A → List A
  insert f x [] = x ∷ []
  insert f x (y ∷ ys) = if ltb_ℤ (pos 0) (f x y) then y ∷ insert f x ys else x ∷ y ∷ ys

  abbrev pub sort : (A → A → ℤ) → List A → List A
  sort f [] = []
  sort f (x ∷ xs) = insert f x (sort f xs)

  -- `xs[0]`
  abbrev pub first : List A → Option A
  first [] = none
  first (x ∷ xs) = some x

  abbrev pub Mem : A → List A → Type ℓ
  Mem x [] = Unit {ℓ} × ⊥
  Mem x (y ∷ ys) = (x ≡ y) ⊎ Mem x ys

  -- The comparer does not put the second before the first.
  abbrev pub NotAfter : (A → A → ℤ) → A → A → Type 0
  NotAfter f x y = ltb_ℤ (pos 0) (f x y) ≡ false

  pub Mem-filter :
      (p : A → Bool) (x : A) (xs : List A) → Mem x (filter p xs) → Mem x xs × (p x ≡ true)
  Mem-filter p x [] (_, m) = elim m [ ]
  Mem-filter p x (y ∷ ys) m = elim (Bool-cases (p y)) [
    | inl h ↦ elim (subst (λ b. Mem x (if b then y ∷ filter p ys else filter p ys)) h m) [
      | inl e ↦ (inl e, ap p e ∙ h)
      | inr n ↦ let (k, q) = Mem-filter p x ys n in (inr k, q)
    ]
    | inr h ↦
        let (k, q) =
          Mem-filter p x ys (subst (λ b. Mem x (if b then y ∷ filter p ys else filter p ys)) h m) in
        (inr k, q)
  ]

  pub Mem-insert :
      (f : A → A → ℤ) (x z : A) (ys : List A) → Mem z (insert f x ys) → (z ≡ x) ⊎ Mem z ys
  Mem-insert f x z [] m = m
  Mem-insert f x z (y ∷ ys) m = elim (Bool-cases (ltb_ℤ (pos 0) (f x y))) [
    | inl h ↦ elim (subst (λ b. Mem z (if b then y ∷ insert f x ys else x ∷ y ∷ ys)) h m) [
      | inl e ↦ inr (inl e)
      | inr n ↦ elim (Mem-insert f x z ys n) [ inl e ↦ inl e | inr k ↦ inr (inr k) ]
    ]
    | inr h ↦ subst (λ b. Mem z (if b then y ∷ insert f x ys else x ∷ y ∷ ys)) h m
  ]

  pub Mem-sort : (f : A → A → ℤ) (z : A) (xs : List A) → Mem z (sort f xs) → Mem z xs
  Mem-sort f z [] m = m
  Mem-sort f z (x ∷ xs) m = elim (Mem-insert f x z (sort f xs) m) [
    | inl e ↦ inl e
    | inr k ↦ inr (Mem-sort f z xs k)
  ]

  pub All-insert {κ} :
      (P : A → Type κ) (f : A → A → ℤ) (x : A) (ys : List A)
      → All P (insert f x ys)
      → P x × All P ys
  All-insert P f x [] h = h
  All-insert P f x (y ∷ ys) h = elim (Bool-cases (ltb_ℤ (pos 0) (f x y))) [
    | inl e ↦
        let (py, rest) = subst (λ b. All P (if b then y ∷ insert f x ys else x ∷ y ∷ ys)) e h in
        let (px, pys) = All-insert P f x ys rest in (px, (py, pys))
    | inr e ↦ subst (λ b. All P (if b then y ∷ insert f x ys else x ∷ y ∷ ys)) e h
  ]

  pub All-sort {κ} : (P : A → Type κ) (f : A → A → ℤ) (xs : List A) → All P (sort f xs) → All P xs
  All-sort P f [] h = tt
  All-sort P f (x ∷ xs) h =
      let (px, rest) = All-insert P f x (sort f xs) h in (px, All-sort P f xs rest)

  -- The comparer puts no element before the first.
  abbrev pub IsFirst : (A → A → ℤ) → List A → Type 0
  IsFirst f [] = Unit {0}
  IsFirst f (x ∷ xs) = All (NotAfter f x) xs

  transitive-All :
      (f : A → A → ℤ)
      → IsComparer f
      → (x y : A) (xs : List A) → NotAfter f x y
      → All (NotAfter f y) xs
      → All (NotAfter f x) xs
  transitive-All f c x y [] h _ = tt
  transitive-All f c x y (z ∷ xs) h (k, ks) =
      (c.transitive x y z h k, transitive-All f c x y xs h ks)

  insert-All :
      (f : A → A → ℤ) (y x : A) (xs : List A)
      → NotAfter f y x
      → All (NotAfter f y) xs
      → All (NotAfter f y) (insert f x xs)
  insert-All f y x [] h _ = (h, tt)
  insert-All f y x (z ∷ xs) h (k, ks) = elim (Bool-cases (ltb_ℤ (pos 0) (f x z))) [
    | inl e ↦ rw e (k, insert-All f y x xs h ks)
    | inr e ↦ rw e (h, (k, ks))
  ]

  insert_keeps {κ} :
      (P : A → Type κ) (f : A → A → ℤ) (x : A) (ys : List A)
      → P x
      → All P ys
      → All P (insert f x ys)
  insert_keeps P f x [] p h = (p, tt)
  insert_keeps P f x (y ∷ ys) p h = elim (Bool-cases (ltb_ℤ (pos 0) (f x y))) [
    | inl e ↦ rw e (h.0, insert_keeps P f x ys p h.1)
    | inr e ↦ rw e (p, h)
  ]

  -- Sorting keeps what every element has.
  pub sort-All {κ} : (P : A → Type κ) (f : A → A → ℤ) (xs : List A) → All P xs → All P (sort f xs)
  sort-All P f [] h = h
  sort-All P f (x ∷ xs) h = insert_keeps P f x (sort f xs) h.0 (sort-All P f xs h.1)

  turned :
      (f : A → A → ℤ) → IsComparer f → (x y : A) → ltb_ℤ (pos 0) (f x y) ≡ true → NotAfter f y x
  turned f c x y h = ground (arith, c.flipped y x, h)

  insert-IsFirst :
      (f : A → A → ℤ)
      → IsComparer f
      → (x : A) (ys : List A) → IsFirst f ys
      → IsFirst f (insert f x ys)
  insert-IsFirst f c x [] h = tt
  insert-IsFirst f c x (y ∷ ys) h = elim (Bool-cases (ltb_ℤ (pos 0) (f x y))) [
    | inl e ↦ rw e (insert-All f y x ys (turned f c x y e) h)
    | inr e ↦ rw e (e, transitive-All f c x y ys e h)
  ]

  sort-IsFirst : (f : A → A → ℤ) → IsComparer f → (xs : List A) → IsFirst f (sort f xs)
  sort-IsFirst f c [] = tt
  sort-IsFirst f c (x ∷ xs) = insert-IsFirst f c x (sort f xs) (sort-IsFirst f c xs)

  itself : (f : A → A → ℤ) → IsComparer f → (x : A) → NotAfter f x x
  itself f c x = ground (arith, c.flipped x x)

  first_lem :
      (f : A → A → ℤ) (ys : List A) (x : A)
      → IsComparer f
      → IsFirst f ys
      → first ys ≡ some x
      → Mem x ys × All (NotAfter f x) ys
  first_lem f [] x c m h = ground arith
  first_lem f (y ∷ ys) x c m h =
      let same = some-injective _ _ h in
      (inl (sym same), subst (λ z. All (NotAfter f z) (y ∷ ys)) same (itself f c y, m))

  -- The first of a sorted list is one of the list, and the comparer puts none before it.
  pub first-sort :
      (f : A → A → ℤ) (xs : List A) (x : A)
      → IsComparer f
      → first (sort f xs) ≡ some x
      → Mem x xs × All (NotAfter f x) xs
  first-sort f xs x c h =
      let (m, all) = first_lem f (sort f xs) x c (sort-IsFirst f c xs) h in
      (Mem-sort f x xs m, All-sort (NotAfter f x) f xs all)

  pub Mem-first : (xs : List A) (x : A) → first xs ≡ some x → Mem x xs
  Mem-first [] x h = ground arith
  Mem-first (y ∷ ys) x h = inl (sym (some-injective _ _ h))

  pub Mem-append : (x : A) (xs ys : List A) → Mem x (xs ++ ys) → Mem x xs ⊎ Mem x ys
  Mem-append x [] ys m = inr m
  Mem-append x (y ∷ xs) ys m = elim m [
    | inl e ↦ inl (inl e)
    | inr n ↦ elim (Mem-append x xs ys n) [ inl k ↦ inl (inr k) | inr k ↦ inr k ]
  ]

  pub All-append {κ} : (P : A → Type κ) (xs ys : List A) → All P (xs ++ ys) → All P ys
  All-append P [] ys h = h
  All-append P (x ∷ xs) ys (_, h) = All-append P xs ys h

  pub All-map {κ ι} :
      (P : A → Type κ) (Q : A → Type ι) (xs : List A) → ((x : A) → P x → Q x) → All P xs → All Q xs
  All-map P Q [] f h = tt
  All-map P Q (x ∷ xs) f (p, ps) = (f x p, All-map P Q xs f ps)

  -- No element passes the test where the first that does is not there.
  pub first-filter :
      (p : A → Bool) (xs : List A) → first (filter p xs) ≡ none → All (λ x. p x ≡ false) xs
  first-filter p [] h = tt
  first-filter p (x ∷ xs) h = elim (Bool-cases (p x)) [
    | inl e ↦
        let impossible : some x ≡ none =
          subst (λ b. first (if b then x ∷ filter p xs else filter p xs) ≡ none) e h in
        ground arith
    | inr e ↦ (
      e,
      first-filter p xs
          (subst (λ b. first (if b then x ∷ filter p xs else filter p xs) ≡ none) e h),
    )
  ]
