-- ===== src/Base/MemoryStream/Contents.antt =====
-- What a MemoryStream promises: it is a byte sequence with a position. The sequence is the part of
-- the buffer between the origin and the length; a write past its end fills the gap with zeros.
use yohira.Common.{
  ℕ, max, ◌+◌, ◌-◌, ◌≡◌, List, ◌++◌, arith, length, get_or, ltb, leb, ◌&&◌, if◌then◌else◌, slice,
  alloc, blit, length-blit, get_or-blit, slice-blit, length-slice, length-append, length-alloc,
  get_or-pad,
}
use yohira.Base.MemoryStream.{MemoryStream}
use yohira.Base.MemoryStream.Invariant.{IsValid}

abbrev pub contents : MemoryStream → List ℕ
contents s = slice s.buffer s.origin s.length

-- `bytes` written at index `at` of a sequence that grows as needed.
unfoldable pub overwrite : List ℕ → ℕ → List ℕ → List ℕ
overwrite xs at bytes = blit (xs ++ alloc (at + length bytes - length xs)) at bytes

pub length-overwrite :
    (xs : List ℕ) (at : ℕ) (bytes : List ℕ)
    → length (overwrite xs at bytes) ≡ max (length xs) (at + length bytes)
unfolding overwrite
length-overwrite xs at bytes =
    let grown = alloc (at + length bytes - length xs) in
    ground (
      arith,
      length-blit (xs ++ grown) at bytes,
      length-append xs grown,
      length-alloc (at + length bytes - length xs),
    )

pub get_or-overwrite :
    (xs : List ℕ) (at : ℕ) (bytes : List ℕ) (j : ℕ)
    → get_or (overwrite xs at bytes) j 0
      ≡ (if leb at j && ltb j (at + length bytes) then get_or bytes (j - at) 0 else get_or xs j 0)
unfolding overwrite
get_or-overwrite xs at bytes j =
    let grown = alloc (at + length bytes - length xs) in
    ground (
      arith,
      get_or-blit (xs ++ grown) at bytes j 0,
      length-append xs grown,
      length-alloc (at + length bytes - length xs),
      get_or-pad xs (at + length bytes - length xs) j,
    )

pub length-contents : (s : MemoryStream) → IsValid s → length (contents s) ≡ s.length - s.origin
length-contents s v = omega (arith, length-slice s.buffer s.origin s.length)

pub slice-overwrite :
    (xs : List ℕ) (at : ℕ) (bytes : List ℕ)
    → slice (overwrite xs at bytes) at (at + length bytes) ≡ bytes
unfolding overwrite
slice-overwrite xs at bytes =
    let grown = alloc (at + length bytes - length xs) in
    slice-blit (xs ++ grown) bytes at
      (omega (arith, length-append xs grown, length-alloc (at + length bytes - length xs)))
