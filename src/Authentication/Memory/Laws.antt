-- ===== src/Authentication/Memory/Laws.antt =====
-- What a stream of its own makes of writes and reads.
use yohira.Common.{
  ℕ, ◌+◌, ◌-◌, ◌≡◌, refl, sym, ap, ◌∙◌, true, false, List, [], length, ok, pos, ltb_ℤ, ◌-ℤ◌, arith,
  alloc, blit_whole, length-alloc, slice_whole, append-nil, ◌==◌, Bool-cases, inl, inr,
}
use yohira.Base.MemoryStream.{M, MemoryStream, alloc_stream, from, to_buffer}
use yohira.Base.MemoryStream.Invariant.{IsValid, alloc_stream-IsValid, from-IsValid}
use yohira.Base.MemoryStream.Contents.{contents, overwrite}
use yohira.Base.BinaryWriter.Emitting.{Emits}
use yohira.Base.BinaryReader.Taking.{Takes}
use yohira.Authentication.Memory.{to_memory, from_memory}

overwrite_empty : (bytes : List ℕ) → overwrite [] 0 bytes ≡ bytes
unfolding overwrite
overwrite_empty bytes =
    let n : 0 + length bytes - 0 ≡ length bytes = omega arith in
    rw n (blit_whole (alloc (length bytes)) bytes (length-alloc (length bytes)))

to_buffer-contents : (s : MemoryStream) → IsValid s → to_buffer s ≡ contents s
unfolding to_buffer
to_buffer-contents s v =
    let size : s.origin + (s.length - s.origin) ≡ s.length = omega (arith, v.origin-le-length) in
    elim (Bool-cases (s.length - s.origin == 0)) [
      | inl q ↦
          let none_left : s.length - s.origin ≡ 0 = ground (arith, q) in rw (q, none_left) refl
      | inr q ↦ rw (q, size) refl
    ]

pub to_memory-Emits : (m : M (Unit {0})) (bytes : List ℕ) → Emits m bytes → to_memory m ≡ ok bytes
unfolding to_memory alloc_stream
to_memory-Emits m bytes em =
    let (t, ran, a) = em _ (record {
      valid = alloc_stream-IsValid (pos 0);
      opened = refl;
      writing = refl;
      growing = refl;
    }) in
    rw ran (ap ok (to_buffer-contents t a.growable.valid ∙ a.holds ∙ overwrite_empty bytes))

pub from_memory-Takes :
    {A : Type 0} (m : M A) (bytes : List ℕ) (a : A) → Takes m bytes a → from_memory m bytes ≡ ok a
unfolding from_memory from ◌-ℤ◌
from_memory-Takes m bytes a tm =
    let n = length bytes in
    let fits : ltb_ℤ (pos n -ℤ pos 0) (pos n) ≡ false = ground arith in
    let valid = rw fits at (from-IsValid bytes (pos 0) (pos n) true false) in
    let ran = tm _ (record {
      valid = valid;
      opened = refl;
      rest = [];
      shows = slice_whole bytes ∙ sym (append-nil bytes);
    }) in
    rw (fits, ran) refl
