-- ===== src/Common/Comparers.antt =====
-- Comparers: functions that give a number below, equal to or above 0, as `Array.prototype.sort` takes.
use mathlib.Core.Path.{◌≡◌, refl}
use mathlib.Core.Bool.{false}
use native.Mathlib.Omega.{arith}
use yohira.Common.Tests.{if◌then◌else◌}
use yohira.Common.Integers.{ℤ, pos, ltb_ℤ, eqb_ℤ}

-- What `sort` asks of a comparer: the other way round gives the other sign, and not-after is
-- transitive.
pub record IsComparer {ℓ} {A : Type ℓ} (f : A → A → ℤ) : Type ℓ where
  pub flipped : (x y : A) → ltb_ℤ (f x y) (pos 0) ≡ ltb_ℤ (pos 0) (f y x)
  pub transitive :
      (x y z : A)
      → ltb_ℤ (pos 0) (f x y) ≡ false
      → ltb_ℤ (pos 0) (f y z) ≡ false
      → ltb_ℤ (pos 0) (f x z) ≡ false

-- The second comparer decides where the first does not.
abbrev pub lex {ℓ} : {A : Type ℓ} → (A → A → ℤ) → (A → A → ℤ) → A → A → ℤ
lex f g x y = if eqb_ℤ (f x y) (pos 0) then g x y else f x y

pub lex-IsComparer {ℓ} :
    {A : Type ℓ} (f g : A → A → ℤ) → IsComparer f → IsComparer g → IsComparer (lex f g)
lex-IsComparer f g p q = record {
  flipped = λ x y. ground (arith, p.flipped x y, p.flipped y x, q.flipped x y);
  transitive = λ x y z h k. ground (
    arith,
    p.flipped x y,
    p.flipped y x,
    p.flipped y z,
    p.flipped z y,
    p.flipped x z,
    p.flipped z x,
    p.transitive x y z,
    p.transitive y z x,
    p.transitive z x y,
    p.transitive z y x,
    q.transitive x y z,
  );
}

pub constant-IsComparer {ℓ} : {A : Type ℓ} → IsComparer {A = A} (λ x y. pos 0)
constant-IsComparer = record { flipped = λ x y. refl; transitive = λ x y z h k. refl }

pub on-IsComparer {ℓ κ} :
    {A : Type ℓ} {B : Type κ} (key : A → B) (f : B → B → ℤ)
    → IsComparer f
    → IsComparer (λ x y. f (key x) (key y))
on-IsComparer key f p = record {
  flipped = λ x y. p.flipped (key x) (key y);
  transitive = λ x y z. p.transitive (key x) (key y) (key z);
}
