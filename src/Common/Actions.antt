-- ===== src/Common/Actions.antt =====
-- Methods of mutable objects: an action takes the object's state and returns a value, or the error
-- that it throws, with the state that it leaves behind in either case.
use mathlib.Core.Path.{◌≡◌, ap}
use mathlib.Core.Bool.{Bool, true, false}

pub data Outcome {ℓ κ ι} (E : Type ℓ) (S : Type κ) (A : Type ι) : Type (ℓ ⊔ κ ⊔ ι) where
  done : A → S → Outcome E S A
  thrown : E → S → Outcome E S A

abbrev pub Action {ℓ κ ι} : Type ℓ → Type κ → Type ι → Type (ℓ ⊔ κ ⊔ ι)
Action E S A = S → Outcome E S A

infixl 5 ◌>>=◌ ◌>>◌
abbrev pub ◌>>=◌ :
    {E : Type 0} {S : Type 0} {A : Type 0} {B : Type 0}
    → Action E S A
    → (A → Action E S B)
    → Action E S B
◌>>=◌ m f s = elim (m s) [ done a s' ↦ f a s' | thrown e s' ↦ thrown e s' ]

abbrev pub ◌>>◌ :
    {E : Type 0} {S : Type 0} {A : Type 0} {B : Type 0} → Action E S A → Action E S B → Action E S B
m >> k = m >>= λ _. k

module _ {E : Type 0} {S : Type 0} where
  abbrev pub pure : {A : Type 0} → A → Action E S A
  pure a s = done a s

  abbrev pub throw : {A : Type 0} → E → Action E S A
  throw e s = thrown e s

  -- `if (test) throw e`
  abbrev pub throw_if : Bool → E → Action E S (Unit {0})
  throw_if true e s = thrown e s
  throw_if false e s = done tt s

-- A chain whose first action ends without an error.
pub >>=-done :
    {E : Type 0} {S : Type 0} {A : Type 0} {B : Type 0} (m : Action E S A) (f : A → Action E S B)
    {s t : S} {a : A}
    → m s ≡ done a t
    → (m >>= f) s ≡ f a t
>>=-done m f e = ap (λ o. elim o [ done a t ↦ f a t | thrown x t ↦ thrown x t ]) e
