-- ===== src/Cryptography/CryptoTransform/Blockwise.antt =====
-- What the transforms rely on of Node's ciphers without automatic padding: nothing in gives nothing
-- out, whole blocks in give as many bytes out, and two calls do what one call on both inputs does.
use yohira.Common.{ℕ, ◌%◌, ◌≡◌, List, [], ◌++◌, length}

pub record Blockwise {Ctx : Type 0} (update : Ctx → List ℕ → List ℕ × Ctx) (block : ℕ)
    : Type 0 where
  pub nothing : (c : Ctx) → update c [] ≡ ([], c)
  pub sized : (c : Ctx) (x : List ℕ) → length x % block ≡ 0 → length (update c x).0 ≡ length x
  pub joined :
      (c : Ctx) (x y : List ℕ)
      → length x % block ≡ 0
      → length y % block ≡ 0
      → update c (x ++ y)
        ≡ ((update c x).0 ++ (update (update c x).1 y).0, (update (update c x).1 y).1)

-- A decipher that starts at `d` undoes a cipher that starts at `e`, on whole blocks.
abbrev pub Undoes :
    {Ctx Dtx : Type 0} (decipher : Dtx → List ℕ → List ℕ × Dtx)
    (cipher : Ctx → List ℕ → List ℕ × Ctx)
    → ℕ
    → Dtx
    → Ctx
    → Type 0
Undoes decipher cipher block d e =
    (x : List ℕ) → length x % block ≡ 0 → (decipher d (cipher e x).0).0 ≡ x
