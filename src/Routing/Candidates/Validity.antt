-- ===== src/Routing/Candidates/Validity.antt =====
-- CandidateSet.setValidity, isValidCandidate and replaceEndpoint, one after the other.
use yohira.Common.{
  eqb_Bool, ◌⊎◌, inl, inr, Bool-cases, is_neg, ℕ, zero, suc, ◌<◌, ◌≡◌, refl, sym, ap, ◌∙◌, Bool,
  true, false, not, List, [], ◌∷◌, get_elem?, set, none, some, ℤ, pos, negsuc, done, >>=-done,
  arith,
}
use mathlib.Core.Option.{some-injective}
use yohira.Routing.Candidates.{
  CandidateState, flip, to_int32, is_valid, with_validity, at_index, is_valid_candidate,
  set_validity, replace_endpoint,
}

-- A score that `~` does not cut.
abbrev pub InInt32 : ℤ → Type 0
InInt32 (pos n) = n < 2147483648
InInt32 (negsuc n) = n < 2147483648

module _ {ℓ} {A : Type ℓ} where
  get_elem?-set_same :
      (xs : List A) (i : ℕ) (v w : A) → get_elem? xs i ≡ some v → get_elem? (set xs i w) i ≡ some w
  get_elem?-set_same [] i v w h = ground arith
  get_elem?-set_same (x ∷ xs) zero v w h = refl
  get_elem?-set_same (x ∷ xs) (suc i) v w h = get_elem?-set_same xs i v w h

  set-set : (xs : List A) (i : ℕ) (v w : A) → set (set xs i v) i w ≡ set xs i w
  set-set [] i v w = refl
  set-set (x ∷ xs) zero v w = refl
  set-set (x ∷ xs) (suc i) v w = ap (◌∷◌ x) (set-set xs i v w)

  set_own : (xs : List A) (i : ℕ) (v : A) → get_elem? xs i ≡ some v → set xs i v ≡ xs
  set_own [] i v h = refl
  set_own (x ∷ xs) zero v h = ap (λ y. y ∷ xs) (sym (some-injective _ _ h))
  set_own (x ∷ xs) (suc i) v h = ap (◌∷◌ x) (set_own xs i v h)

same_Bool : (a b : Bool) → eqb_Bool a b ≡ true → a ≡ b
same_Bool true b h = sym h
same_Bool false true h = h
same_Bool false false h = refl

other_Bool : (a b : Bool) → eqb_Bool a b ≡ false → a ≡ not b
other_Bool true b h = ap not (sym h)
other_Bool false true h = refl
other_Bool false false h = sym h

to_int32_fixed : (z : ℤ) → InInt32 z → to_int32 z ≡ z
unfolding to_int32
to_int32_fixed (pos n) h = ground arith
to_int32_fixed (negsuc n) h = ground arith

flip-flip : (z : ℤ) → flip (flip z) ≡ z
unfolding flip
flip-flip (pos n) = refl
flip-flip (negsuc n) = refl

flip-InInt32 : (z : ℤ) → InInt32 z → InInt32 (flip z)
unfolding flip
flip-InInt32 (pos n) h = h
flip-InInt32 (negsuc n) h = h

not_self : (b : Bool) → b ≡ not b → ⊥
not_self true h = ground arith
not_self false h = ground arith

not-not : (b : Bool) → not (not b) ≡ b
not-not true = refl
not-not false = refl

is_neg-flip : (z : ℤ) → is_neg (flip z) ≡ not (is_neg z)
unfolding flip
is_neg-flip (pos n) = refl
is_neg-flip (negsuc n) = refl

module _ {E : Type 0} where
  with_validity-cases :
      (c : CandidateState E) (value : Bool)
      → InInt32 c.score
      → ((is_valid c ≡ value) × (with_validity c value ≡ c))
        ⊎ ((is_valid c ≡ not value) × (with_validity c value ≡ record c { score = flip c.score }))
  unfolding with_validity
  with_validity-cases c value h = elim (Bool-cases (eqb_Bool (is_valid c) value)) [
    | inl p ↦ inl (same_Bool (is_valid c) value p, rw p refl)
    | inr p ↦ inr (other_Bool (is_valid c) value p, rw (p, to_int32_fixed c.score h) refl)
  ]

  endpoint-with_validity :
      (c : CandidateState E) (value : Bool) → (with_validity c value).endpoint ≡ c.endpoint
  unfolding with_validity
  endpoint-with_validity c value = elim (Bool-cases (eqb_Bool (is_valid c) value)) [
    | inl p ↦ rw p refl
    | inr p ↦ rw p refl
  ]

  is_valid-with_validity :
      (c : CandidateState E) (value : Bool)
      → InInt32 c.score
      → is_valid (with_validity c value) ≡ value
  unfolding is_valid
  is_valid-with_validity c value h = elim (with_validity-cases c value h) [
    | inl (p, q) ↦ ap is_valid q ∙ p
    | inr (p, q) ↦ ap is_valid q ∙ ap not (is_neg-flip c.score) ∙ ap not p ∙ not-not value
  ]

  with_validity-with_validity :
      (c : CandidateState E) (value : Bool)
      → InInt32 c.score
      → with_validity (with_validity c value) (is_valid c) ≡ c
  unfolding is_valid
  with_validity-with_validity c value h =
      let d = with_validity c value in
      elim (with_validity-cases c value h) [
        | inl (p, q) ↦
            ap (λ x. with_validity x (is_valid c)) q ∙ elim (with_validity-cases c (is_valid c) h) [
              | inl (_, r) ↦ r
              | inr (p', _) ↦ elim (not_self (is_valid c) p') [ ]
            ]
        | inr (p, q) ↦
            let turned = record c { score = flip c.score } in
            ap (λ x. with_validity x (is_valid c)) q
            ∙ elim (with_validity-cases turned (is_valid c) (flip-InInt32 c.score h)) [
              | inl (p', _) ↦
                  elim (not_self (is_valid c) (sym p' ∙ ap not (is_neg-flip c.score))) [ ]
              | inr (_, r) ↦ r ∙ ap (λ z. record c { score = z }) (flip-flip c.score)
            ]
      ]

  at_index-done :
      {A : Type 0} (index : ℕ) (f : CandidateState E → A × CandidateState E)
      (cs : List (CandidateState E)) (c : CandidateState E)
      → get_elem? cs index ≡ some c
      → at_index index f cs ≡ done (f c).0 (set cs index (f c).1)
  unfolding at_index
  at_index-done index f cs c h = rw (h, at_index) refl

  -- A policy that sets a candidate's validity is believed, and can be undone. At an index in range,
  -- for a score of 32 bits: setValidity ends without an error; then isValidCandidate gives the value
  -- that was set; every other candidate, and the endpoint of this one, is what it was; and setting
  -- the validity that it had before gives back the whole set, scores included.
  pub set_validity-is_valid_candidate :
      (index : ℕ) (value : Bool) (cs : List (CandidateState E)) (c : CandidateState E)
      → get_elem? cs index ≡ some c
      → InInt32 c.score
      → (d : CandidateState E) × (cs' : List (CandidateState E)) × (set_validity index value cs
          ≡ done tt cs')
        × (is_valid_candidate index cs' ≡ done value cs')
        × (get_elem? cs' index ≡ some d)
        × (d.endpoint ≡ c.endpoint)
        × (cs' ≡ set cs index d)
        × (set_validity index (is_valid c) cs' ≡ done tt cs)
  unfolding set_validity is_valid_candidate
  set_validity-is_valid_candidate index value cs c h fits =
      let d = with_validity c value in
      let cs' = set cs index d in
      let there = get_elem?-set_same cs index c d h in
      let back : set (set cs index d) index (with_validity d (is_valid c)) ≡ cs =
        set-set cs index d _
        ∙ ap (set cs index) (with_validity-with_validity c value fits)
        ∙ set_own cs index c h in
      (
        d,
        cs',
        at_index-done index (λ c. (tt, with_validity c value)) cs c h,
        at_index-done index (λ c. (is_valid c, c)) cs' d there
            ∙ ap (λ b. done b (set cs' index d)) (is_valid-with_validity c value fits)
            ∙ ap (done value) (set_own cs' index d there),
        there,
        endpoint-with_validity c value,
        refl,
        at_index-done index (λ d. (tt, with_validity d (is_valid c))) cs' d there
            ∙ ap (done tt) back,
      )

  -- A candidate whose endpoint is replaced by none is no candidate any more. At an index in range,
  -- for a score of 32 bits, replaceEndpoint with undefined ends without an error, and leaves a
  -- candidate there that has no endpoint and is not valid; the others are what they were.
  pub replace_endpoint-is_valid_candidate :
      (index : ℕ) (cs : List (CandidateState E)) (c : CandidateState E)
      → get_elem? cs index ≡ some c
      → InInt32 c.score
      → (d : CandidateState E) × (cs' : List (CandidateState E)) × (replace_endpoint index none cs
          ≡ done tt cs')
        × (get_elem? cs' index ≡ some d)
        × (d.endpoint ≡ none)
        × (is_valid_candidate index cs' ≡ done false cs')
        × (cs' ≡ set cs index d)
  unfolding replace_endpoint
  replace_endpoint-is_valid_candidate index cs c h fits =
      let bare = record c { endpoint = none } in
      let cs' = set cs index bare in
      let there = get_elem?-set_same cs index c bare h in
      let (d, cs'', run, valid, here, kept, same, _) =
        set_validity-is_valid_candidate index false cs' bare there fits in
      (
        d,
        cs'',
        >>=-done (at_index index λ c. (tt, record c { endpoint = none }))
              (λ _. set_validity index false)
              (at_index-done index (λ c. (tt, record c { endpoint = none })) cs c h)
            ∙ run,
        here,
        kept,
        valid,
        same ∙ set-set cs index bare d,
      )
