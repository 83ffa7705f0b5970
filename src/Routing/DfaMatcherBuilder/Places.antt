-- ===== src/Routing/DfaMatcherBuilder/Places.antt =====
-- DfaMatcherBuilder.build: where a list of states stands in another, and what a jump table answers.
use yohira.Common.{
  ℕ, zero, suc, ◌+◌, ◌≤◌, ◌≡◌, refl, subst, inl, inr, Bool, true, false, Bool-cases, if◌then◌else◌,
  List, [], ◌∷◌, ◌++◌, length, get_elem?, some, ℤ, All, arith,
}
use yohira.Routing.Tokenizer.{PathSegment, text}
use yohira.Routing.JumpTables.{
  Entries, is_ascii, or_default, eqb, map_get, map_set, fill_map, get_destination, choose_table,
}

module _ {A : Type 0} where
  -- The list stands in the other from a position on.
  unfoldable pub Lies : List A → ℕ → List A → Type 0
  Lies states i [] = Unit
  Lies states i (x ∷ xs) = (get_elem? states i ≡ some x) × Lies states (suc i) xs

  Lies_behind :
      (y : A) (states : List A) (i : ℕ) (xs : List A)
      → Lies states i xs
      → Lies (y ∷ states) (suc i) xs
  unfolding Lies
  Lies_behind y states i [] h = tt
  Lies_behind y states i (x ∷ xs) h = (h.0, Lies_behind y states (suc i) xs h.1)

  get_elem?_bound : (xs : List A) (i : ℕ) (x : A) → get_elem? xs i ≡ some x → suc i ≤ length xs
  get_elem?_bound [] i x h = ground arith
  get_elem?_bound (y ∷ xs) zero x h = omega arith
  get_elem?_bound (y ∷ xs) (suc i) x h = let k = get_elem?_bound xs i x h in omega (arith, k)

  pub Lies_refl : (xs : List A) → Lies xs 0 xs
  unfolding Lies
  Lies_refl [] = tt
  Lies_refl (x ∷ xs) = (refl, Lies_behind x xs 0 xs (Lies_refl xs))

  pub Lies-append :
      (states : List A) (i j : ℕ) (xs ys : List A)
      → j ≡ i + length xs
      → Lies states i (xs ++ ys)
      → Lies states i xs × Lies states j ys
  unfolding Lies
  Lies-append states i j [] ys e h = (tt, subst (λ k. Lies states k ys) (omega (arith, e)) h)
  Lies-append states i j (x ∷ xs) ys e h =
      let (first, rest) = Lies-append states (suc i) j xs ys (omega (arith, e)) h.1 in
      ((h.0, first), rest)

  pub Lies-length :
      (states : List A) (i : ℕ) (x : A) (xs : List A)
      → Lies states i (x ∷ xs)
      → i + suc (length xs) ≤ length states
  unfolding Lies
  Lies-length states i x [] h =
      let below_end = get_elem?_bound states i x h.0 in omega (arith, below_end)
  Lies-length states i x (y ∷ xs) h =
      let rest = Lies-length states (suc i) y xs h.1 in omega (arith, rest)

-- A lookup in a table gives a destination that the table was made with.
module _ (P : ℤ → Type 0) (lower : List ℕ → List ℕ) where
  or_default_lem :
      (m : Entries) (k : List ℕ) (default : ℤ)
      → P default
      → All (λ e. P (e.1)) m
      → P (or_default (map_get m k) default)
  unfolding map_get
  or_default_lem [] k default p h = p
  or_default_lem ((j, v) ∷ m) k default p h = elim (Bool-cases (eqb j k)) [
    | inl e ↦ rw e h.0
    | inr e ↦ rw e (or_default_lem m k default p h.1)
  ]

  map_set_lem :
      (m : Entries) (k : List ℕ) (v : ℤ)
      → P v
      → All (λ e. P (e.1)) m
      → All (λ e. P (e.1)) (map_set m k v)
  unfolding map_set
  map_set_lem [] k v p h = (p, tt)
  map_set_lem ((j, w) ∷ m) k v p h = elim (Bool-cases (eqb j k)) [
    | inl e ↦ rw e (p, h.1)
    | inr e ↦ rw e (h.0, map_set_lem m k v p h.1)
  ]

  fill_map_lem :
      (m entries : Entries)
      → All (λ e. P (e.1)) m
      → All (λ e. P (e.1)) entries
      → All (λ e. P (e.1)) (fill_map lower m entries)
  unfolding fill_map
  fill_map_lem m [] h k = h
  fill_map_lem m ((t, d) ∷ entries) h k =
      fill_map_lem (map_set m (lower t) d) entries (map_set_lem m (lower t) d k.0 h) k.1

  if_lem : (b : Bool) {x y : ℤ} → P x → P y → P (if b then x else y)
  if_lem true p q = p
  if_lem false p q = q

  pub get_destination_lem :
      (default exit : ℤ) (entries : Entries) (path : List ℕ) (segment : PathSegment)
      → P default
      → P exit
      → All (λ e. P (e.1)) entries
      → P (get_destination lower (choose_table lower default exit entries) path segment)
  unfolding get_destination choose_table
  get_destination_lem default exit [] path segment p q h = if_lem _ q p
  get_destination_lem default exit ((t, d) ∷ []) path segment p q h =
      elim (Bool-cases (is_ascii t)) [
        | inl e ↦ rw e (if_lem _ q (if_lem _ p (if_lem _ h.0 p)))
        | inr e ↦ rw e (if_lem _ q (if_lem _ h.0 p))
      ]
  get_destination_lem default exit (e ∷ f ∷ entries) path segment p q h = if_lem _ q (
      or_default_lem (fill_map lower [] (e ∷ f ∷ entries)) (lower (text path segment)) default p
        (fill_map_lem [] (e ∷ f ∷ entries) tt h))
