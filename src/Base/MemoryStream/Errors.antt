-- ===== src/Base/MemoryStream/Errors.antt =====
-- The methods that throw: none leaves a half-done change, and what a negative count does.
use yohira.Common.{
  ℕ, suc, ◌-◌, ◌≤◌, ◌<◌, ◌≡◌, true, List, pos, negsuc, Outcome, done, thrown, arith, ◌-ℤ◌,
  copy_down, pos-+ℤ-negsuc,
}
use yohira.Base.MemoryStream.{Error, MemoryStream, validate_buffer_arguments}
use yohira.Base.MemoryStream.Writing.{extend, write}

-- Where the call throws, the stream is what it was.
abbrev pub Unchanged : {A : Type 0} → MemoryStream → Outcome Error MemoryStream A → Type 0
Unchanged s (done _ _) = Unit
Unchanged s (thrown _ t) = t ≡ s

validate_negative :
    (source : List ℕ) (n : ℕ) (s : MemoryStream)
    → validate_buffer_arguments source (pos 0) (negsuc n) s ≡ done tt s
unfolding validate_buffer_arguments ◌-ℤ◌
validate_negative source n s = ground arith

extend_short : (i : ℕ) (s : MemoryStream) → i ≤ s.length → extend i s ≡ done tt s
unfolding extend
extend_short i s h = ground arith

-- No argument test refuses a negative count: a write of `-(n + 1)` bytes to an open, writable stream
-- succeeds, writes nothing, and moves the position back by `n + 1`, where there is room before it and
-- no gap to fill.
pub write-negative_count :
    (source : List ℕ) (n : ℕ) (s : MemoryStream)
    → s.is_open ≡ true
    → s.writable ≡ true
    → n < s.position
    → s.position ≤ s.length
    → write source (pos 0) (negsuc n) s ≡ done tt (record s { position = s.position - suc n })
unfolding write copy_down
write-negative_count source n s o w h k = ground (
  arith,
  validate_negative source n s,
  pos-+ℤ-negsuc s.position n h,
  extend_short (s.position - suc n) s,
)
