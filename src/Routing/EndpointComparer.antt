-- ===== src/Routing/EndpointComparer.antt =====
-- packages/routing/src/matching/EndpointComparer.ts. Precedences are only compared; they are whole
-- numbers here, scaled by a power of ten. JavaScript's `toLowerCase` and `localeCompare` are
-- parameters, and so are the policies' comparers.
pub mod Order
use yohira.Common.{
  ℕ, Bool, true, false, List, [], ◌∷◌, if◌then◌else◌, Option, none, some, ℤ, pos, negsuc, ltb_ℤ,
  eqb_ℤ,
}

pub record RouteEndpoint : Type 0 where
  pub order : ℤ
  pub inbound_precedence : ℤ
  pub raw_text : Option (List ℕ)

-- `other` stands for an endpoint that is not an instance of RouteEndpoint.
pub data Endpoint : Type 0 where
  route : RouteEndpoint → Endpoint
  other : Endpoint

unfoldable pub compare_to : ℤ → ℤ → ℤ
compare_to x y = if ltb_ℤ x y then negsuc 0 else if ltb_ℤ y x then pos 1 else pos 0

-- An endpoint that is no route comes before one that is.
abbrev pub compare_routes : (RouteEndpoint → RouteEndpoint → ℤ) → Endpoint → Endpoint → ℤ
compare_routes f (route x) (route y) = f x y
compare_routes f (route x) other = pos 1
compare_routes f other (route y) = negsuc 0
compare_routes f other other = pos 0

-- OrderComparer
abbrev pub compare_order : Endpoint → Endpoint → ℤ
compare_order = compare_routes λ x y. compare_to x.order y.order

-- PrecedenceComparer
abbrev pub compare_precedence : Endpoint → Endpoint → ℤ
compare_precedence = compare_routes λ x y. compare_to x.inbound_precedence y.inbound_precedence

module _ (lower : List ℕ → List ℕ) (locale_compare : List ℕ → List ℕ → ℤ) where
  abbrev pub compare_texts : Option (List ℕ) → Option (List ℕ) → ℤ
  compare_texts none none = pos 0
  compare_texts none (some y) = negsuc 0
  compare_texts (some x) none = pos 1
  compare_texts (some x) (some y) = locale_compare (lower x) (lower y)

  -- `comparePattern`
  abbrev pub compare_pattern : Endpoint → Endpoint → ℤ
  compare_pattern = compare_routes λ x y. compare_texts x.raw_text y.raw_text

-- The loop of `compareCore` over `comparers`.
unfoldable pub compare_core : List (Endpoint → Endpoint → ℤ) → Endpoint → Endpoint → ℤ
compare_core [] x y = pos 0
compare_core (f ∷ comparers) x y =
    let rest = compare_core comparers x y in if eqb_ℤ (f x y) (pos 0) then rest else f x y

-- The constructor's `comparers`, from those of the policies.
abbrev pub comparers : List (Endpoint → Endpoint → ℤ) → List (Endpoint → Endpoint → ℤ)
comparers policies = compare_order ∷ compare_precedence ∷ policies

unfoldable pub compare :
    (List ℕ → List ℕ)
    → (List ℕ → List ℕ → ℤ)
    → List (Endpoint → Endpoint → ℤ)
    → Endpoint
    → Endpoint
    → ℤ
compare lower locale_compare policies x y =
    if eqb_ℤ (compare_core (comparers policies) x y) (pos 0)
    then compare_pattern lower locale_compare x y
    else compare_core (comparers policies) x y

unfoldable pub equals : List (Endpoint → Endpoint → ℤ) → Endpoint → Endpoint → Bool
equals policies x y = eqb_ℤ (compare_core (comparers policies) x y) (pos 0)
