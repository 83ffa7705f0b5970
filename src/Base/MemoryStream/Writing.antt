-- ===== src/Base/MemoryStream/Writing.antt =====
-- packages/base/src/MemoryStream.ts: `write` and `writeTo`.
use yohira.Common.{
  ℕ, ◌+◌, Bool, false, not, ◌&&◌, List, ltb, leb, if◌then◌else◌, ℤ, pos, pos_part, ◌+ℤ◌, is_neg,
  ◌>>=◌, ◌>>◌, done, pure, throw_if, copy, fill, copy_down,
}
use yohira.Base.MemoryStream.{
  MemoryStream, M, unnamed, ensure_not_closed, ensure_writable, ensure_capacity,
  validate_buffer_arguments,
}

-- `if (i > this._capacity) { … }`
unfoldable pub grow : ℕ → M Bool
grow i s = if ltb s.capacity i then ensure_capacity i s else done false s

-- `if (i > this._length) { … }`
unfoldable pub extend : ℕ → M (Unit {0})
extend i s =
    if ltb s.length i
    then (do
      allocated ← grow i
      λ t. pure tt (record t {
        buffer =
            if ltb s.length s.position && not allocated
            then fill t.buffer 0 t.length i
            else t.buffer;
        length = i;
      }))
        s
    else pure tt s

-- The copy at the end of `write`; the source is not the stream's own buffer.
abbrev pub put_bytes : List ℕ → ℕ → ℤ → ℕ → MemoryStream → MemoryStream
put_bytes source offset count i s = record s {
  buffer =
      if leb (pos_part count) 8
      then copy_down (pos_part count) s.buffer s.position source offset
      else copy source s.buffer s.position offset (offset + pos_part count);
  position = i;
}

unfoldable pub write : List ℕ → ℤ → ℤ → M (Unit {0})
unfolding ensure_not_closed ensure_writable
write source offset count = do
  validate_buffer_arguments source offset count
  ensure_not_closed
  ensure_writable
  λ s. throw_if (is_neg (pos s.position +ℤ count)) unnamed s
  λ s.
      let i = pos_part (pos s.position +ℤ count) in
      (do extend i; λ t. pure tt (put_bytes source (pos_part offset) count i t)) s
