-- ===== src/Base/MemoryStream/Reading.antt =====
-- `read` against the byte sequence that the stream stands for, and reading back what was written.
use yohira.Common.{
  ℕ, min, ◌+◌, ◌-◌, ◌≤◌, ◌≡◌, ◌⊎◌, ap, ◌∙◌, true, List, length, pos, done, arith, ◌>>=◌, ◌>>◌,
  alloc, slice, blit, copy_down-eq-copy, slice-slice, length-slice, blit_whole, blit_nil, copy, ◌⊎◌,
  length-alloc, pos-+ℤ,
}
use yohira.Base.MemoryStream.{MemoryStream, begin, read, seek, readable}
use yohira.Base.MemoryStream.Invariant.{IsValid, IsValid-at, validate_buffer_arguments-done}
use yohira.Base.MemoryStream.Contents.{
  contents, overwrite, length-contents, length-overwrite, slice-overwrite,
}
use yohira.Base.MemoryStream.Writing.{write}
use yohira.Base.MemoryStream.Refinement.{write-overwrite}

-- The number of bytes that a read of `n` finds.
abbrev pub available : MemoryStream → ℕ → ℕ
available s n = min n (length (contents s) - (s.position - s.origin))

read_lem :
    (buffer : List ℕ) (offset n : ℕ) (s : MemoryStream)
    → IsValid s
    → s.is_open ≡ true
    → offset + n ≤ length buffer
    → let k = readable s (pos n) in
      read buffer (pos offset) (pos n) s
      ≡ done
          (k, copy s.buffer buffer offset s.position (s.position + k))
          (record s { position = s.position + k })
unfolding read
read_lem buffer offset n s v o inside =
    let k = readable s (pos n) in
    ground (
      arith,
      validate_buffer_arguments-done buffer offset n s inside,
      copy_down-eq-copy k buffer offset s.buffer s.position,
      blit_nil buffer offset,
    )

readable-available : (s : MemoryStream) (n : ℕ) → IsValid s → readable s (pos n) ≡ available s n
readable-available s n v = ground (arith, length-contents s v)

-- A read into an open stream's caller's buffer returns the bytes at the position, as many as are
-- there and at most `n`, leaves the rest of the buffer, and moves the position behind them.
pub read-contents :
    (buffer : List ℕ) (offset n : ℕ) (s : MemoryStream)
    → IsValid s
    → s.is_open ≡ true
    → offset + n ≤ length buffer
    → let k = available s n in
      let at = s.position - s.origin in
      read buffer (pos offset) (pos n) s
      ≡ done
          (k, blit buffer offset (slice (contents s) at (at + k)))
          (record s { position = s.position + k })
read-contents buffer offset n s v o inside =
    let k = available s n in
    let found = rw (readable-available s n v) at (read_lem buffer offset n s v o inside) in
    let inside' : (s.position + k ≤ s.length) ⊎ (k ≡ 0) = ground (arith, length-contents s v) in
    rw
      (slice-slice s.buffer s.origin s.length s.position k v.origin-le-position inside'
        (omega arith))
      found

pub seek_begin :
    (at : ℕ) (t : MemoryStream)
    → t.is_open ≡ true
    → seek (pos at) begin t ≡ done (t.origin + at) (record t { position = t.origin + at })
unfolding seek
seek_begin at t o = ground (arith, pos-+ℤ t.origin at)

read_overwritten :
    (xs bytes : List ℕ) (at : ℕ) (t : MemoryStream)
    → IsValid t
    → t.is_open ≡ true
    → contents t ≡ overwrite xs at bytes
    → read
        (alloc (length bytes))
        (pos 0)
        (pos (length bytes))
        (record t { position = t.origin + at })
      ≡ done (length bytes, bytes) (record t { position = t.origin + at + length bytes })
read_overwritten xs bytes at t v o holds =
    let n = length bytes in
    let back = record t { position = t.origin + at } in
    let valid : IsValid back = IsValid-at (t.origin + at) t v (omega arith) in
    let all : available back n ≡ n = omega (arith, ap length holds, length-overwrite xs at bytes) in
    let at' : t.origin + at - t.origin ≡ at = omega arith in
    let bytes' : slice (contents t) (t.origin + at - t.origin) (t.origin + at - t.origin + n)
        ≡ bytes =
      rw (at', holds) (slice-overwrite xs at bytes) in
    let found =
      rw all at (read-contents (alloc n) 0 n back valid o (omega (arith, length-alloc n))) in
    rw bytes' at found
    ∙ ap (λ (r : List ℕ). done (n, r) (record t { position = t.origin + at + n }))
        (blit_whole (alloc n) bytes (length-alloc n))

-- What is written at a position is read back from there, the same bytes and nothing less: a write of
-- a part of the source to a stream in order that is open, writable, and has room for it or can grow,
-- a seek back to where it was, and a read of as many bytes.
pub write-seek-read :
    (source : List ℕ) (offset n : ℕ) (s : MemoryStream)
    → IsValid s
    → s.is_open ≡ true
    → s.writable ≡ true
    → offset + n ≤ length source
    → (s.expandable ≡ true) ⊎ (s.position + n ≤ s.capacity)
    → (t : MemoryStream) × ((do
      write source (pos offset) (pos n)
      seek (pos (s.position - s.origin)) begin
      read (alloc n) (pos 0) (pos n))
          s
        ≡ done (n, slice source offset (offset + n)) t)
write-seek-read source offset n s v o w inside room =
    let at = s.position - s.origin in
    let bytes = slice source offset (offset + n) in
    let (t, wrote, holds, position, origin, o', w', e', valid) =
      write-overwrite source offset n s v o w inside room in
    let size : length bytes ≡ n = omega (arith, length-slice source offset (offset + n)) in
    let found = rw size at (read_overwritten (contents s) bytes at t valid (o' ∙ o) holds) in
    (
      record t { position = t.origin + at + n },
      rw (wrote, ◌>>=◌) (rw (seek_begin at t (o' ∙ o), ◌>>=◌) found),
    )
