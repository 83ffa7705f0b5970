-- ===== src/Routing/EndpointComparer/Order.antt =====
-- EndpointComparer.compare as an order to sort by.
use yohira.Common.{
  IsComparer, lex-IsComparer, constant-IsComparer, on-IsComparer, ℕ, ◌≡◌, refl, false, List, [],
  ◌∷◌, All, Option, none, some, ℤ, pos, ltb_ℤ, arith,
}
use yohira.Routing.EndpointComparer.{
  RouteEndpoint, Endpoint, route, other, compare_to, compare_routes, compare_order,
  compare_precedence, compare_texts, compare_pattern, compare_core, comparers, compare,
}

compare_to-IsComparer : IsComparer compare_to
unfolding compare_to
compare_to-IsComparer = record {
  flipped = λ x y. ground arith;
  transitive = λ x y z h k. ground arith;
}

-- Endpoints, and texts, that may lack what is compared: those that lack it come first.
routes_flipped :
    (f : RouteEndpoint → RouteEndpoint → ℤ)
    → IsComparer f
    → (x y : Endpoint) → ltb_ℤ (compare_routes f x y) (pos 0) ≡ ltb_ℤ (pos 0) (compare_routes f y x)
routes_flipped f p (route x) (route y) = p.flipped x y
routes_flipped f p (route x) other = refl
routes_flipped f p other (route y) = refl
routes_flipped f p other other = refl

routes_transitive :
    (f : RouteEndpoint → RouteEndpoint → ℤ)
    → IsComparer f
    → (x y z : Endpoint) → ltb_ℤ (pos 0) (compare_routes f x y) ≡ false
    → ltb_ℤ (pos 0) (compare_routes f y z) ≡ false
    → ltb_ℤ (pos 0) (compare_routes f x z) ≡ false
routes_transitive f p (route x) (route y) (route z) h k = p.transitive x y z h k
routes_transitive f p (route x) (route y) other h k = k
routes_transitive f p (route x) other z h k = ground arith
routes_transitive f p other y (route z) h k = refl
routes_transitive f p other y other h k = refl

routes-IsComparer :
    (f : RouteEndpoint → RouteEndpoint → ℤ) → IsComparer f → IsComparer (compare_routes f)
routes-IsComparer f p = record { flipped = routes_flipped f p; transitive = routes_transitive f p }

module _ (lower : List ℕ → List ℕ) (locale_compare : List ℕ → List ℕ → ℤ)
    (l : IsComparer locale_compare) where
  texts_flipped :
      (x y : Option (List ℕ))
      → ltb_ℤ (compare_texts lower locale_compare x y) (pos 0)
        ≡ ltb_ℤ (pos 0) (compare_texts lower locale_compare y x)
  texts_flipped none none = refl
  texts_flipped none (some y) = refl
  texts_flipped (some x) none = refl
  texts_flipped (some x) (some y) = l.flipped (lower x) (lower y)

  texts_transitive :
      (x y z : Option (List ℕ))
      → ltb_ℤ (pos 0) (compare_texts lower locale_compare x y) ≡ false
      → ltb_ℤ (pos 0) (compare_texts lower locale_compare y z) ≡ false
      → ltb_ℤ (pos 0) (compare_texts lower locale_compare x z) ≡ false
  texts_transitive none y none h k = refl
  texts_transitive none y (some z) h k = refl
  texts_transitive (some x) none z h k = ground arith
  texts_transitive (some x) (some y) none h k = k
  texts_transitive (some x) (some y) (some z) h k = l.transitive (lower x) (lower y) (lower z) h k

  pattern-IsComparer : IsComparer (compare_pattern lower locale_compare)
  pattern-IsComparer = routes-IsComparer _ (
      on-IsComparer (λ r. r.raw_text) (compare_texts lower locale_compare)
        (record { flipped = texts_flipped; transitive = texts_transitive }))

order-IsComparer : IsComparer compare_order
order-IsComparer =
    routes-IsComparer _ (on-IsComparer (λ r. r.order) compare_to compare_to-IsComparer)

precedence-IsComparer : IsComparer compare_precedence
precedence-IsComparer =
    routes-IsComparer _ (on-IsComparer (λ r. r.inbound_precedence) compare_to compare_to-IsComparer)

core-IsComparer :
    (fs : List (Endpoint → Endpoint → ℤ)) → All IsComparer fs → IsComparer (compare_core fs)
unfolding compare_core
core-IsComparer [] _ = constant-IsComparer
core-IsComparer (f ∷ fs) (p, ps) = lex-IsComparer f (compare_core fs) p (core-IsComparer fs ps)

-- Endpoints can be sorted. Where every policy's comparer, and the comparison of texts, gives the
-- other sign the other way round and is transitive, `compare` is so too, whatever the endpoints.
pub compare-IsComparer :
    (lower : List ℕ → List ℕ) (locale_compare : List ℕ → List ℕ → ℤ)
    (policies : List (Endpoint → Endpoint → ℤ))
    → IsComparer locale_compare
    → All IsComparer policies
    → IsComparer (compare lower locale_compare policies)
unfolding compare
compare-IsComparer lower locale_compare policies l ps =
    lex-IsComparer _ _
      (core-IsComparer (comparers policies) (order-IsComparer, (precedence-IsComparer, ps)))
      (pattern-IsComparer lower locale_compare l)
