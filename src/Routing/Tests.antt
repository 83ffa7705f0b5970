-- ===== src/Routing/Tests.antt =====
-- The tokenizer, the tables, the candidates and the matcher on concrete paths and endpoints. The
-- parameters are instantiated by ASCII's lower case, and by an order on strings by length.
use mathlib.Core.Option.{some-injective}
use yohira.Common.{
  IsComparer, ℕ, zero, suc, ◌+◌, ◌≤◌, ◌≡◌, refl, sym, ap, ◌∙◌, true, false, ◌&&◌, List, [], ◌∷◌,
  map, All, leb, if◌then◌else◌, length, get_elem?, set, Option, none, some, ℤ, pos, negsuc, done,
  ok, arith,
}
use yohira.Routing.Tokenizer.{PathSegment, text, tokenize}
use yohira.Routing.Tokenizer.Split.{tokenize-split}
use yohira.Routing.JumpTables.{JumpTable, zero_entry, build_jump_table, get_destination, or_default}
use yohira.Routing.JumpTables.Lookup.{get_destination-build_jump_table}
use yohira.Routing.Candidates.{
  CandidateState, is_valid, is_valid_candidate, replace_endpoint, set_validity,
}
use yohira.Routing.Candidates.Validity.{
  set_validity-is_valid_candidate, replace_endpoint-is_valid_candidate,
}
use yohira.Routing.Selector.{select}
use yohira.Routing.Selector.Priority.{Decides, valid, select-Decides}
use yohira.Routing.EndpointComparer.{compare, compare_to}
use yohira.Routing.EndpointComparer.Order.{compare-IsComparer}
use yohira.Routing.DfaMatcher.{
  Candidate, DfaState, Policy, follow_policies, match_all, match_candidates, new_candidate,
}
use yohira.Routing.DfaMatcher.Walk.{LeadsOn, follow_policies-ends}
use yohira.Routing.DfaMatcher.FastPath.{match_candidates-match_all}

-- `/a/bc/`
abbrev pub path : List ℕ
path = 47 ∷ 97 ∷ 47 ∷ 98 ∷ 99 ∷ 47 ∷ []

tokenize-split_example :
    (map (text path) (tokenize path 4) ≡ (97 ∷ []) ∷ (98 ∷ 99 ∷ []) ∷ [])
    × All (λ s. s.start + s.length ≤ 6) (tokenize path 4)
tokenize-split_example = tokenize-split path 4

abbrev pub lower_char : ℕ → ℕ
lower_char c = if leb 65 c && leb c 90 then c + 32 else c

abbrev pub lower : List ℕ → List ℕ
lower = map lower_char

-- `BC` and `a`
abbrev entries : List (List ℕ × ℤ)
entries = (66 ∷ 67 ∷ [], pos 3) ∷ (97 ∷ [], pos 4) ∷ []

abbrev second_segment : PathSegment
second_segment = record { start = 3; length = 2 }

get_destination-build_jump_table_example :
    (table : JumpTable) × (build_jump_table lower (pos 1) (pos 2) entries ≡ ok table)
    × (get_destination lower table path second_segment ≡ pos 3)
unfolding yohira.Routing.JumpTables.eqb
get_destination-build_jump_table_example =
    get_destination-build_jump_table lower (pos 1) (pos 2) entries path second_segment refl refl
      refl refl (refl, (refl, tt))

abbrev candidates : List (CandidateState ℕ)
candidates =
    record { endpoint = some 10; score = negsuc 0 }
    ∷ record { endpoint = some 11; score = pos 1 }
    ∷ record { endpoint = some 12; score = pos 2 }
    ∷ []

abbrev second : CandidateState ℕ
second = record { endpoint = some 11; score = pos 1 }

set_validity-is_valid_candidate_example :
    (d : CandidateState ℕ) × (cs : List (CandidateState ℕ)) × (set_validity 1 false candidates
      ≡ done tt cs)
    × (is_valid_candidate 1 cs ≡ done false cs)
    × (get_elem? cs 1 ≡ some d)
    × (d.endpoint ≡ some 11)
    × (cs ≡ set candidates 1 d)
    × (set_validity 1 (is_valid second) cs ≡ done tt candidates)
set_validity-is_valid_candidate_example =
    set_validity-is_valid_candidate 1 false candidates second refl (omega arith)

replace_endpoint-is_valid_candidate_example :
    (d : CandidateState ℕ) × (cs : List (CandidateState ℕ)) × (replace_endpoint 1 none candidates
      ≡ done tt cs)
    × (get_elem? cs 1 ≡ some d)
    × (d.endpoint ≡ none)
    × (is_valid_candidate 1 cs ≡ done false cs)
    × (cs ≡ set candidates 1 d)
replace_endpoint-is_valid_candidate_example =
    replace_endpoint-is_valid_candidate 1 candidates second refl (omega arith)

select-Decides_example : Decides (valid candidates) none (select candidates none)
unfolding is_valid
select-Decides_example =
    select-Decides candidates none ((refl, tt), (tt, tt)) ((11, refl), ((12, refl), tt))

abbrev by_length : List ℕ → List ℕ → ℤ
by_length x y = compare_to (pos (length x)) (pos (length y))

by_length-IsComparer : IsComparer by_length
unfolding compare_to
by_length-IsComparer = record {
  flipped = λ x y. ground arith;
  transitive = λ x y z h k. ground arith;
}

compare-IsComparer_example : IsComparer (compare lower by_length [])
compare-IsComparer_example = compare-IsComparer lower by_length [] by_length-IsComparer tt

-- Two states, of which the first has a table that leads to the second.
abbrev state : Option (ℕ → ℤ) → DfaState ℕ ℕ
state table = record {
  candidates = new_candidate (some 10) (pos 0) ∷ [];
  policies = [];
  path_transitions = zero_entry (pos 1) (pos 1);
  policy_transitions = table;
}

abbrev states : List (DfaState ℕ ℕ)
states = state (some (λ _. pos 1)) ∷ state none ∷ []

states-LeadsOn : LeadsOn states 5
states-LeadsOn zero s table there has =
    let same = ap (λ t. t.policy_transitions) (some-injective _ _ there) ∙ has in
    (1, sym (ap (λ t. t 5) (some-injective _ _ same)), omega arith, omega arith)
states-LeadsOn (suc zero) s table there has =
    let same : none ≡ some table =
      ap (λ t. t.policy_transitions) (some-injective _ _ there) ∙ has in
    ground arith
states-LeadsOn (suc (suc i)) s table there has = ground arith

follow_policies-ends_example :
    (s : DfaState ℕ ℕ) × (follow_policies 2 states 5 (pos 0) ≡ ok s) × (s.policy_transitions ≡ none)
follow_policies-ends_example =
    follow_policies-ends 2 states 5 0 states-LeadsOn (omega arith) (omega arith)

abbrev found : Candidate ℕ
found = record { endpoint = some 10; score = pos 0; flags = 0 }

abbrev keep : Policy ℕ
keep choice = ok choice

match_candidates-match_all_example :
    match_candidates true keep (found ∷ []) [] none ≡ match_all true keep (found ∷ []) [] none
match_candidates-match_all_example = match_candidates-match_all true keep found [] [] none refl
