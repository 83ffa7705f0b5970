-- ===== src/Common/Results.antt =====
-- Code that returns a value or throws, and changes no object.
use mathlib.Core.Path.{◌≡◌, ap}

pub data Result {ℓ κ} (E : Type ℓ) (A : Type κ) : Type (ℓ ⊔ κ) where
  ok : A → Result E A
  err : E → Result E A

-- `if (test) throw e; rest`
abbrev pub and_then {ℓ κ ι} :
    {E : Type ℓ} {A : Type κ} {B : Type ι} → Result E A → (A → Result E B) → Result E B
and_then (ok a) f = f a
and_then (err e) f = err e

pub and_then-ok :
    {E : Type 0} {A : Type 0} {B : Type 0} {r : Result E A} {a : A} (f : A → Result E B)
    → r ≡ ok a
    → and_then r f ≡ f a
and_then-ok f e = ap (λ r. and_then r f) e
