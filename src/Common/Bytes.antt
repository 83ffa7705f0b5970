-- ===== src/Common/Bytes.antt =====
-- Node's Buffer: a list of bytes. `alloc`, `fill`, `copy` and `subarray` as the sources use them.
use Prim.Native.Nat.{ℕ, zero, suc, ◌+◌, ◌-◌}
use mathlib.Core.List.{List, [], ◌∷◌}
use yohira.Common.Lists.{take, drop, replicate, get_or, set}

-- `buffer.subarray(start, end)`
abbrev pub slice {ℓ} : {A : Type ℓ} → List A → ℕ → ℕ → List A
slice xs a b = take (b - a) (drop a xs)

-- Writes `ys` over `xs` from index `i` on, as far as `xs` goes.
unfoldable pub blit {ℓ} : {A : Type ℓ} → List A → ℕ → List A → List A
blit [] i ys = []
blit (x ∷ xs) (suc i) ys = x ∷ blit xs i ys
blit (x ∷ xs) zero [] = x ∷ xs
blit (x ∷ xs) zero (y ∷ ys) = y ∷ blit xs zero ys

-- `Buffer.alloc(n)`
abbrev pub alloc : ℕ → List ℕ
alloc n = replicate n 0

-- `source.copy(target, target_start, start, end)`, as the new target
abbrev pub copy : List ℕ → List ℕ → ℕ → ℕ → ℕ → List ℕ
copy source target target_start start end = blit target target_start (slice source start end)

-- `buffer.fill(value, start, end)`
abbrev pub fill : List ℕ → ℕ → ℕ → ℕ → List ℕ
fill buffer value start end = blit buffer start (replicate (end - start) value)

-- `while (--n >= 0) target[at + n] = source[from + n];`. A read out of range gives `undefined`,
-- which a buffer stores as 0.
unfoldable pub copy_down : ℕ → List ℕ → ℕ → List ℕ → ℕ → List ℕ
copy_down zero target at source start = target
copy_down (suc n) target at source start =
    copy_down n (set target (at + n) (get_or source (start + n) 0)) at source start
