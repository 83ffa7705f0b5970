-- ===== src/Routing/Selector/Priority.antt =====
-- DefaultEndpointSelector.select on candidates in the order of their scores.
use yohira.Common.{
  subst, ◌≡◌, refl, sym, ap, ◌∙◌, ◌⊎◌, inl, inr, Bool, true, false, List, [], ◌∷◌, map, All,
  if◌then◌else◌, Option, none, some, ℤ, ltb_ℤ, eqb_ℤ, eqb_ℤ→eq, Outcome, done, thrown, Result, ok,
  err, Bool-cases, arith,
}
use yohira.Routing.Candidates.{CandidateState, is_valid}
use yohira.Routing.Selector.{
  SelectorError, ambiguous, Verdict, continue, assign, stop, report, settle, matches, verdict,
  process_final_candidates, select,
}

verdict_stop : (f s : ℤ) → ltb_ℤ f s ≡ true → verdict true (some f) s ≡ stop
unfolding verdict
verdict_stop f s h = rw h refl

verdict_report : (f s : ℤ) → ltb_ℤ f s ≡ false → eqb_ℤ f s ≡ true → verdict true (some f) s ≡ report
unfolding verdict
verdict_report f s h k = rw (h, k) refl

verdict_assign : (s : ℤ) → verdict true none s ≡ assign
unfolding verdict
verdict_assign s = refl

verdict_continue : (found : Option ℤ) (s : ℤ) → verdict false found s ≡ continue
unfolding verdict
verdict_continue found s = refl

-- Of two scores in order, the first is smaller or they are equal.
compare_scores :
    (f s : ℤ)
    → ltb_ℤ s f ≡ false
    → ((ltb_ℤ f s ≡ true) × (eqb_ℤ f s ≡ false)) ⊎ ((ltb_ℤ f s ≡ false) × (eqb_ℤ f s ≡ true))
compare_scores f s h = ground arith

module _ {E : Type 0} where
  abbrev pub valid : List (CandidateState E) → List (CandidateState E)
  valid [] = []
  valid (c ∷ cs) = if is_valid c then c ∷ valid cs else valid cs

  -- No candidate has a smaller score than one before it.
  abbrev pub Sorted : List (CandidateState E) → Type 0
  Sorted [] = Unit {0}
  Sorted (c ∷ cs) = All (λ d. ltb_ℤ d.score c.score ≡ false) cs × Sorted cs

  abbrev pub HasEndpoint : CandidateState E → Type 0
  HasEndpoint c = (e : E) × (c.endpoint ≡ some e)

  -- What may become of the context `s`, given the valid candidates.
  abbrev pub Decides :
      List (CandidateState E) → Option E → Outcome (SelectorError E) (Option E) (Unit {0}) → Type 0
  Decides vs s (done _ t) =
      ((vs ≡ []) × (t ≡ s))
      ⊎ ((c : CandidateState E) × (rest : List (CandidateState E)) × (vs ≡ c ∷ rest)
          × (t ≡ c.endpoint)
          × All (λ d. ltb_ℤ c.score d.score ≡ true) rest)
  Decides vs s (thrown (ambiguous es) t) =
      (c d : CandidateState E) × (rest : List (CandidateState E)) × (vs ≡ c ∷ d ∷ rest)
      × (c.score ≡ d.score)
      × (es ≡ map (λ v. v.endpoint) vs)
      × (t ≡ s)

  matches_lem : (cs : List (CandidateState E)) → matches cs ≡ map (λ v. v.endpoint) (valid cs)
  unfolding matches
  matches_lem [] = refl
  matches_lem (c ∷ cs) = elim (Bool-cases (is_valid c)) [
    | inl p ↦ rw p (ap (◌∷◌ c.endpoint) (matches_lem cs))
    | inr p ↦ rw p (matches_lem cs)
  ]

  -- The end of the loop once a score has been found.
  abbrev tie :
      List (CandidateState E)
      → ℤ
      → Option E
      → List (CandidateState E)
      → Result (SelectorError E) (Option E)
  tie all f endpoint [] = ok endpoint
  tie all f endpoint (d ∷ _) =
      if eqb_ℤ f d.score then err (ambiguous (matches all)) else ok endpoint

  abbrev follow :
      List (CandidateState E)
      → Option ℤ
      → Option E
      → CandidateState E
      → List (CandidateState E)
      → Verdict
      → Result (SelectorError E) (Option E)
  follow all found endpoint c cs v = elim v [
    | continue ↦ process_final_candidates all found endpoint cs
    | assign ↦ process_final_candidates all (some c.score) c.endpoint cs
    | stop ↦ ok endpoint
    | report ↦ err (ambiguous (matches all))
  ]

  -- A turn of the loop.
  turn :
      (all : List (CandidateState E)) (found : Option ℤ) (endpoint : Option E)
      (c : CandidateState E) (cs : List (CandidateState E)) {b : Bool} {v : Verdict}
      → is_valid c ≡ b
      → verdict b found c.score ≡ v
      → process_final_candidates all found endpoint (c ∷ cs) ≡ follow all found endpoint c cs v
  unfolding process_final_candidates
  turn all found endpoint c cs p q =
      ap (follow all found endpoint c cs) (ap (λ b. verdict b found c.score) p ∙ q)

  process_found :
      (all : List (CandidateState E)) (f : ℤ) (endpoint : Option E) (cs : List (CandidateState E))
      → All (λ d. ltb_ℤ d.score f ≡ false) (valid cs)
      → process_final_candidates all (some f) endpoint cs ≡ tie all f endpoint (valid cs)
  unfolding process_final_candidates
  process_found all f endpoint [] h = refl
  process_found all f endpoint (c ∷ cs) h = elim (Bool-cases (is_valid c)) [
    | inl p ↦
        let (le, _) =
          subst (λ b. All (λ d. ltb_ℤ d.score f ≡ false) (if b then c ∷ valid cs else valid cs)) p
            h in
        elim (compare_scores f c.score le) [
          | inl (q, r) ↦ turn all _ endpoint c cs p (verdict_stop f c.score q) ∙ rw (p, r) refl
          | inr (q, r) ↦ turn all _ endpoint c cs p (verdict_report f c.score q r) ∙ rw (p, r) refl
        ]
    | inr p ↦
        let le =
          subst (λ b. All (λ d. ltb_ℤ d.score f ≡ false) (if b then c ∷ valid cs else valid cs)) p
            h in
        turn all _ endpoint c cs p (verdict_continue (some f) c.score)
        ∙ process_found all f endpoint cs le
        ∙ rw p refl
  ]

  -- The whole loop.
  abbrev outcome :
      List (CandidateState E) → List (CandidateState E) → Result (SelectorError E) (Option E)
  outcome all [] = ok none
  outcome all (c ∷ rest) = tie all c.score c.endpoint rest

  process_none :
      (all cs : List (CandidateState E))
      → Sorted (valid cs)
      → process_final_candidates all none none cs ≡ outcome all (valid cs)
  unfolding process_final_candidates
  process_none all [] h = refl
  process_none all (c ∷ cs) h = elim (Bool-cases (is_valid c)) [
    | inl p ↦
        let (le, _) = subst (λ b. Sorted (if b then c ∷ valid cs else valid cs)) p h in
        turn all none none c cs p (verdict_assign c.score)
        ∙ process_found all c.score c.endpoint cs le
        ∙ rw p refl
    | inr p ↦
        let sorted = subst (λ b. Sorted (if b then c ∷ valid cs else valid cs)) p h in
        turn all none none c cs p (verdict_continue none c.score)
        ∙ process_none all cs sorted
        ∙ rw p refl
  ]

  below_rest :
      (f g : ℤ) (cs : List (CandidateState E))
      → ltb_ℤ f g ≡ true
      → All (λ d. ltb_ℤ d.score g ≡ false) cs
      → All (λ d. ltb_ℤ f d.score ≡ true) cs
  below_rest f g [] h _ = tt
  below_rest f g (c ∷ cs) h (k, rest) = (ground arith, below_rest f g cs h rest)

  outcome-Decides :
      (all vs : List (CandidateState E)) (s : Option E)
      → matches all ≡ map (λ v. v.endpoint) vs
      → Sorted vs
      → All HasEndpoint vs
      → Decides vs s (settle (outcome all vs) s)
  outcome-Decides all [] s m h k = inl (refl, refl)
  outcome-Decides all (c ∷ []) s m h ((e, k), _) =
      subst (λ o. Decides (c ∷ []) s (settle (ok o) s)) (sym k) (inr (c, [], refl, sym k, tt))
  outcome-Decides all (c ∷ d ∷ rest) s m ((le, les), (above, _)) ((e, k), _) =
      elim (compare_scores c.score d.score le) [
        | inl (q, r) ↦
            subst
              (λ b.
                Decides (c ∷ d ∷ rest) s
                  (settle (if b then err (ambiguous (matches all)) else ok c.endpoint) s))
              (sym r)
              (subst (λ o. Decides (c ∷ d ∷ rest) s (settle (ok o) s)) (sym k)
                (inr (c, d ∷ rest, refl, sym k, (q, below_rest c.score d.score rest q above))))
        | inr (q, r) ↦
            subst
              (λ b.
                Decides (c ∷ d ∷ rest) s
                  (settle (if b then err (ambiguous (matches all)) else ok c.endpoint) s))
              (sym r) (c, d, rest, refl, eqb_ℤ→eq _ _ r, m, refl)
      ]

  -- The best candidate wins, and only a tie is an error. For candidates of which the valid ones have
  -- an endpoint and stand in the order of their scores: where none is valid, `select` leaves the
  -- context as it is; where it sets an endpoint, that is the first valid candidate's, and every
  -- other valid one has a greater score; where it throws, the first two valid ones have the same
  -- score, the error names the endpoints of all valid ones, and the context is as it was.
  pub select-Decides :
      (cs : List (CandidateState E)) (context : Option E)
      → Sorted (valid cs)
      → All HasEndpoint (valid cs)
      → Decides (valid cs) context (select cs context)
  unfolding select
  select-Decides [] s h k = inl (refl, refl)
  select-Decides (c ∷ []) s h k = elim (Bool-cases (is_valid c)) [
    | inl p ↦ rw p (inr (c, [], refl, refl, tt))
    | inr p ↦ rw p (inl (refl, refl))
  ]
  select-Decides (c ∷ d ∷ cs) s h k =
      let all = c ∷ d ∷ cs in
      subst (λ r. Decides (valid all) s (settle r s)) (sym (process_none all all h))
        (outcome-Decides all (valid all) s (matches_lem all) h k)
