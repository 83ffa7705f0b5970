-- ===== src/Routing/Candidates.antt =====
-- packages/routing/src/matching/CandidateSet.ts and CandidateState.ts. A set is its `candidates`; a
-- method takes the set and leaves it changed.
pub mod Validity
use yohira.Common.{
  eqb_Bool, ℕ, ◌-◌, ◌%◌, ◌^◌, Bool, true, false, not, List, [], ◌∷◌, ltb, leb, ◌==◌, if◌then◌else◌,
  length, get_elem?, set, Option, none, some, ℤ, pos, negsuc, is_neg, Outcome, done, thrown, Action,
  throw_if, ◌>>=◌, ◌>>◌, pure, Result, ok, err,
}

-- An invalid candidate may have no endpoint.
pub record CandidateState (E : Type 0) : Type 0 where
  pub endpoint : Option E
  pub score : ℤ

pub data CandidateError : Type 0 where
  lengths_differ index_out_of_range : CandidateError

-- `~n` for an n of 32 bits, and ToInt32, by which `~` first cuts its operand to 32 bits.
unfoldable pub flip : ℤ → ℤ
flip (pos n) = negsuc n
flip (negsuc n) = pos n

unfoldable pub to_int32 : ℤ → ℤ
unfolding flip
to_int32 (pos n) =
    let m = n % 4294967296 in if ltb m 2147483648 then pos m else negsuc (4294967295 - m)
to_int32 (negsuc n) =
    let m = n % 4294967296 in if ltb m 2147483648 then negsuc m else pos (4294967295 - m)

abbrev pub M : Type 0 → Type 0 → Type 0
M E A = Action CandidateError (List (CandidateState E)) A

module _ {E : Type 0} where
  unfoldable pub zip_states : List E → List ℤ → List (CandidateState E)
  zip_states [] scores = []
  zip_states (e ∷ es) [] = []
  zip_states (e ∷ es) (s ∷ scores) = record { endpoint = some e; score = s } ∷ zip_states es scores

  unfoldable pub from_endpoints : List E → List ℤ → Result CandidateError (List (CandidateState E))
  from_endpoints endpoints scores =
      if not (length endpoints == length scores)
      then err lengths_differ
      else ok (zip_states endpoints scores)

  -- The static `isValidCandidate`.
  unfoldable pub is_valid : CandidateState E → Bool
  is_valid candidate = not (is_neg candidate.score)

  -- The static `setValidity`, of the candidate that the reference stands for.
  unfoldable pub with_validity : CandidateState E → Bool → CandidateState E
  unfolding flip to_int32 is_valid
  with_validity candidate value =
      if not (eqb_Bool (is_valid candidate) value)
      then record candidate { score = flip (to_int32 candidate.score) }
      else candidate

  -- Runs `f` on the candidate at the index, or throws.
  unfoldable pub at_index : {A : Type 0} → ℕ → (CandidateState E → A × CandidateState E) → M E A
  at_index index f cs = elim (get_elem? cs index) [
    | none ↦ thrown index_out_of_range cs
    | some c ↦ let (a, c') = f c in done a (set cs index c')
  ]

  unfoldable pub is_valid_candidate : ℕ → M E Bool
  unfolding at_index is_valid
  is_valid_candidate index = at_index index λ c. (is_valid c, c)

  unfoldable pub set_validity : ℕ → Bool → M E (Unit {0})
  unfolding at_index with_validity
  set_validity index value = at_index index λ c. (tt, with_validity c value)

  unfoldable pub replace_endpoint : ℕ → Option E → M E (Unit {0})
  unfolding at_index set_validity
  replace_endpoint index endpoint = do
    at_index index λ c. (tt, record c { endpoint = endpoint })
    elim endpoint [ none ↦ set_validity index false | some _ ↦ pure tt ]
