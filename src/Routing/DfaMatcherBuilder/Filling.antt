-- ===== src/Routing/DfaMatcherBuilder/Filling.antt =====
-- DfaMatcherBuilder.build: runs of writes to an array, and when they leave no hole.
use yohira.Common.{
  ℕ, zero, suc, ◌+◌, ◌≤◌, ◌<◌, ◌≡◌, refl, sym, ap, ◌∙◌, List, [], ◌∷◌, ◌++◌, map, length,
  length-append, Option, none, some, arith,
}
use yohira.Routing.DfaMatcherBuilder.{set_at}

-- Writes from a position on.
unfoldable pub fill {ℓ} : {A : Type ℓ} → ℕ → List A → List (Option A) → List (Option A)
fill i [] a = a
fill i (x ∷ xs) a = fill (suc i) xs (set_at i x a)

module _ {A : Type 0} where
  set_at-set_at :
      (i j : ℕ) (x y : A) (a : List (Option A))
      → i < j
      → set_at i x (set_at j y a) ≡ set_at j y (set_at i x a)
  unfolding set_at
  set_at-set_at zero zero x y a h = absurd (omega (arith, h))
  set_at-set_at zero (suc j) x y [] h = refl
  set_at-set_at zero (suc j) x y (o ∷ a) h = refl
  set_at-set_at (suc i) zero x y a h = absurd (omega (arith, h))
  set_at-set_at (suc i) (suc j) x y [] h =
      ap (λ b. none ∷ b) (set_at-set_at i j x y [] (omega (arith, h)))
  set_at-set_at (suc i) (suc j) x y (o ∷ a) h =
      ap (λ b. o ∷ b) (set_at-set_at i j x y a (omega (arith, h)))

  -- A write below those of a `fill` may come before them.
  set_at-fill :
      (i j : ℕ) (x : A) (xs : List A) (a : List (Option A))
      → i < j
      → set_at i x (fill j xs a) ≡ fill j xs (set_at i x a)
  unfolding fill
  set_at-fill i j x [] a h = refl
  set_at-fill i j x (y ∷ xs) a h =
      set_at-fill i (suc j) x xs (set_at j y a) (omega (arith, h))
      ∙ ap (fill (suc j) xs) (set_at-set_at i j x y a h)

  pub fill-append :
      (i : ℕ) (xs ys : List A) (a : List (Option A))
      → fill i (xs ++ ys) a ≡ fill (i + length xs) ys (fill i xs a)
  unfolding fill
  fill-append i [] ys a = ap (λ n. fill n ys a) (omega arith)
  fill-append i (x ∷ xs) ys a =
      fill-append (suc i) xs ys (set_at i x a)
      ∙ ap (λ n. fill n ys (fill (suc i) xs (set_at i x a))) (omega arith)

  fill_after :
      (o : Option A) (i : ℕ) (xs : List A) (a : List (Option A))
      → fill (suc i) xs (o ∷ a) ≡ o ∷ fill i xs a
  unfolding fill set_at
  fill_after o i [] a = refl
  fill_after o i (x ∷ xs) a = fill_after o (suc i) xs (set_at i x a)

  pub fill_behind :
      (i k : ℕ) (xs ys : List A) (a : List (Option A))
      → k ≡ i + length xs
      → fill k ys (fill i xs a) ≡ fill i (xs ++ ys) a
  fill_behind i k xs ys a h = ap (λ n. fill n ys (fill i xs a)) h ∙ sym (fill-append i xs ys a)

  -- Four runs of writes behind each other, and a write before them.
  pub fill_four :
      (i j k l : ℕ) (x : A) (xs ys zs ws : List A) (a : List (Option A))
      → j ≡ i + length xs
      → k ≡ j + length ys
      → l ≡ k + length zs
      → set_at i x (fill (suc l) ws (fill (suc k) zs (fill (suc j) ys (fill (suc i) xs a))))
        ≡ fill i (x ∷ (((xs ++ ys) ++ zs) ++ ws)) a
  unfolding fill
  fill_four i j k l x xs ys zs ws a p q r =
      let two = length-append xs ys in
      let three = length-append (xs ++ ys) zs in
      ap (λ b. set_at i x (fill (suc l) ws (fill (suc k) zs b)))
        (fill_behind (suc i) (suc j) xs ys a (omega (arith, p)))
      ∙ (ap (λ b. set_at i x (fill (suc l) ws b))
            (fill_behind (suc i) (suc k) (xs ++ ys) zs a (omega (arith, p, q, two)))
          ∙ (ap (set_at i x) (
                fill_behind (suc i) (suc l) ((xs ++ ys) ++ zs) ws a
                  (omega (arith, p, q, r, two, three)))
              ∙ set_at-fill i (suc i) x (((xs ++ ys) ++ zs) ++ ws) a (omega arith)))

  -- An array that is filled from its start has no hole.
  pub fill-map :
      (xs : List A) (a : List (Option A)) → length a ≤ length xs → fill 0 xs a ≡ map some xs
  unfolding fill set_at
  fill-map [] [] h = refl
  fill-map [] (o ∷ a) h = absurd (omega (arith, h))
  fill-map (x ∷ xs) [] h =
      fill_after (some x) 0 xs [] ∙ ap (λ b. some x ∷ b) (fill-map xs [] (omega arith))
  fill-map (x ∷ xs) (o ∷ a) h =
      fill_after (some x) 0 xs a ∙ ap (λ b. some x ∷ b) (fill-map xs a (omega (arith, h)))

  -- One more write behind a run.
  pub fill_end :
      (i k : ℕ) (xs : List A) (x : A) (a : List (Option A))
      → k ≡ i + length xs
      → set_at k x (fill i xs a) ≡ fill i (xs ++ (x ∷ [])) a
  unfolding fill
  fill_end i k xs x a h = fill_behind i k xs (x ∷ []) a h
