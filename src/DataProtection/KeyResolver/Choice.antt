-- ===== src/DataProtection/KeyResolver/Choice.antt =====
-- DefaultKeyResolver.resolveDefaultKeyPolicy: which key is the default one, and which the fallback.
use mathlib.Core.Option.{some-injective}
use yohira.Common.{
  ℕ, ◌≤◌, ◌≡◌, refl, sym, ap, subst, ◌∙◌, Bool, true, false, List, ◌++◌, if◌then◌else◌, Option,
  none, some, Bool-cases, inl, inr, ℤ, sub_ℕ, lex-IsComparer, on-IsComparer, IsComparer, All,
  filter, sort, first, Mem, NotAfter, first-sort, Mem-filter, Mem-sort, All-sort, All-map,
  All-append, Mem-first, Mem-append, first-filter, arith,
}
use yohira.DataProtection.KeyResolver.{
  Key, DefaultKeyResolution, is_active, by_activation, is_candidate, preferred_key, is_usable,
  newest_first, oldest_first, is_propagated, find_fallback_key, resolved,
  resolve_default_key_policy,
}

latest-IsComparer : IsComparer {A = Key} (λ a b. sub_ℕ b.activation_date a.activation_date)
latest-IsComparer = record { flipped = λ x y. ground arith; transitive = λ x y z h k. ground arith }

-- Where a candidate came from.
checked :
    (candidate : Key → Bool) (o : Option Key) (k : Key)
    → (elim o [ none ↦ none | some key ↦ if candidate key then some key else none ]) ≡ some k
    → (o ≡ some k) × (candidate k ≡ true)
checked candidate none k h = ground arith
checked candidate (some key) k h = elim (Bool-cases (candidate key)) [
  | inl p ↦
      let same = some-injective _ _ (subst (λ b. (if b then some key else none) ≡ some k) p h) in
      (ap some same, ap candidate (sym same) ∙ p)
  | inr p ↦
      let impossible : none ≡ some k = subst (λ b. (if b then some key else none) ≡ some k) p h in
      ground arith
]

module _ (locale_compare : List ℕ → List ℕ → ℤ) (can_create : Key → Bool)
    (c : IsComparer locale_compare) where
  by_activation-IsComparer : IsComparer (by_activation locale_compare can_create)
  by_activation-IsComparer =
      lex-IsComparer _ _ latest-IsComparer (on-IsComparer (λ k. k.key_id) locale_compare c)

  -- A default key: known, active, a candidate, and activated no earlier than any active key.
  abbrev pub IsDefault : ℕ → List Key → Key → Type 0
  IsDefault now keys k =
      Mem k keys
      × (is_active now k ≡ true)
      × (is_candidate locale_compare can_create now k ≡ true)
      × All (λ j. j.activation_date ≤ k.activation_date) (filter (is_active now) keys)

  not_later :
      (k j : Key)
      → NotAfter (by_activation locale_compare can_create) k j
      → j.activation_date ≤ k.activation_date
  not_later k j h = ground arith

  preferred-IsDefault :
      (now : ℕ) (keys : List Key) (k : Key)
      → preferred_key locale_compare can_create now keys ≡ some k
      → IsDefault now keys k
  unfolding preferred_key
  preferred-IsDefault now keys k h =
      let active = filter (is_active now) keys in
      let (found, candidate) =
        checked (is_candidate locale_compare can_create now)
          (first (sort (by_activation locale_compare can_create) active)) k h in
      let (there, earliest) =
        first-sort (by_activation locale_compare can_create) active k by_activation-IsComparer
          found in
      let (known, is_on) = Mem-filter (is_active now) k keys there in
      (
        known,
        is_on,
        candidate,
        All-map (NotAfter (by_activation locale_compare can_create) k)
            (λ j. j.activation_date ≤ k.activation_date) active (not_later k) earliest,
      )

  -- A fallback key: known, neither revoked nor without an encryptor.
  abbrev pub IsFallback : List Key → Key → Type 0
  IsFallback keys k = Mem k keys × (is_usable locale_compare can_create k ≡ true)

  find_fallback_key-IsFallback :
      (now : ℕ) (keys : List Key) (k : Key)
      → find_fallback_key locale_compare can_create now keys ≡ some k
      → IsFallback keys k
  unfolding find_fallback_key
  find_fallback_key-IsFallback now keys k h =
      let old = sort newest_first (filter (is_propagated now) keys) in
      let usable_of = is_usable locale_compare can_create in
      let (there, usable) =
        Mem-filter usable_of k (old ++ sort oldest_first keys)
          (Mem-first (filter usable_of (old ++ sort oldest_first keys)) k h) in
      elim (Mem-append k old (sort oldest_first keys) there) [
        | inl m ↦ (
          (Mem-filter (is_propagated now) k keys
              (Mem-sort newest_first k (filter (is_propagated now) keys) m)).0,
          usable,
        )
        | inr m ↦ (Mem-sort oldest_first k keys m, usable)
      ]

  find_fallback_key-none :
      (now : ℕ) (keys : List Key)
      → find_fallback_key locale_compare can_create now keys ≡ none
      → All (λ j. is_usable locale_compare can_create j ≡ false) keys
  unfolding find_fallback_key
  find_fallback_key-none now keys h =
      let usable_of = is_usable locale_compare can_create in
      let old = sort newest_first (filter (is_propagated now) keys) in
      All-sort (λ j. usable_of j ≡ false) oldest_first keys
        (All-append (λ j. usable_of j ≡ false) old (sort oldest_first keys)
          (first-filter usable_of (old ++ sort oldest_first keys) h))

  -- What a resolution says of the keys.
  abbrev pub Falls : List Key → Option Key → Type 0
  Falls keys none = All (λ j. is_usable locale_compare can_create j ≡ false) keys
  Falls keys (some k) = IsFallback keys k

  abbrev pub Resolves : ℕ → List Key → Option Key → DefaultKeyResolution → Type 0
  Resolves now keys (some k) r = IsDefault now keys k × (r.fallback_key ≡ none)
  Resolves now keys none r = (r.should_generate_new_key ≡ true) × Falls keys r.fallback_key

  find_fallback_key-Falls :
      (now : ℕ) (keys : List Key) (o : Option Key)
      → find_fallback_key locale_compare can_create now keys ≡ o
      → Falls keys o
  find_fallback_key-Falls now keys none h = find_fallback_key-none now keys h
  find_fallback_key-Falls now keys (some k) h = find_fallback_key-IsFallback now keys k h

  resolved-Resolves :
      (now : ℕ) (keys : List Key) (o : Option Key)
      → preferred_key locale_compare can_create now keys ≡ o
      → let r = resolved locale_compare can_create now keys o in Resolves now keys r.default_key r
  resolved-Resolves now keys (some p) h = (preferred-IsDefault now keys p h, refl)
  resolved-Resolves now keys none h = (refl, find_fallback_key-Falls now keys _ refl)

  -- The key to protect with is a sound one. Where localeCompare is a comparer, for every set of keys
  -- and every time: a default key is among the keys, active by now with skew allowed, neither revoked
  -- nor expired, with an encryptor, no active key was activated after it, and there is no fallback
  -- key; without a default key the caller is told to generate one, and a fallback key is among the
  -- keys, not revoked, and has an encryptor; where there is neither, no key is usable.
  pub resolve_default_key_policy-Resolves :
      (now : ℕ) (keys : List Key)
      → let r = resolve_default_key_policy locale_compare can_create now keys in
        Resolves now keys r.default_key r
  unfolding resolve_default_key_policy
  resolve_default_key_policy-Resolves now keys =
      resolved-Resolves now keys (preferred_key locale_compare can_create now keys) refl
