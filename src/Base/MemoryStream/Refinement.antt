-- ===== src/Base/MemoryStream/Refinement.antt =====
-- `write` against the byte sequence that the stream stands for.
use yohira.Common.{
  ℕ, max, ◌+◌, ◌-◌, ◌≤◌, ◌<◌, ◌≡◌, ◌∙◌, sym, ap, ◌⊎◌, true, false, ◌&&◌, arith, List, ltb, leb,
  if◌then◌else◌, pos, done, thrown, slice, copy, get_or, length, length-blit, get_or-slice,
  length-slice, copy_down-eq-copy, get_or-copy, list_ext, pos-+ℤ,
}
use yohira.Base.MemoryStream.{MemoryStream, not_expandable}
use yohira.Base.MemoryStream.Invariant.{IsValid, validate_buffer_arguments-done}
use yohira.Base.MemoryStream.Contents.{
  contents, length-contents, overwrite, length-overwrite, get_or-overwrite,
}
use yohira.Base.MemoryStream.Writing.{write, put_bytes}
use yohira.Base.MemoryStream.Extending.{
  extended, extended_shape, extend_lem, extended-IsValid, extended_keeps, extended_zero,
  extend_fixed,
}

-- The state after a write of `n` bytes.
pub written : List ℕ → ℕ → ℕ → MemoryStream → MemoryStream
written source offset n s =
    put_bytes source offset (pos n) (s.position + n) (extended (s.position + n) s)

module _ (source : List ℕ) (offset n : ℕ) (s : MemoryStream) (v : IsValid s)
    (open' : s.is_open ≡ true) (writable : s.writable ≡ true) (inside : offset + n ≤ length source)
    (room : (s.expandable ≡ true) ⊎ (s.position + n ≤ s.capacity)) where
  pub write_lem : write source (pos offset) (pos n) s ≡ done tt (written source offset n s)
  unfolding write written
  write_lem = ground (
    arith,
    validate_buffer_arguments-done source offset n s inside,
    extend_lem (s.position + n) s v open' room,
    extended_shape (s.position + n) s,
    pos-+ℤ s.position n,
  )

  abbrev after : MemoryStream
  after = extended (s.position + n) s

  shape :
      (after.origin ≡ s.origin)
      × (after.position ≡ s.position)
      × (after.length ≡ max s.length (s.position + n))
      × (after.is_open ≡ s.is_open)
      × (after.writable ≡ s.writable)
      × (after.expandable ≡ s.expandable)
  shape = extended_shape (s.position + n) s

  -- The copy, short or long, is one `copy`.
  put_bytes-buffer :
      (written source offset n s).buffer ≡ copy source after.buffer s.position offset (offset + n)
  unfolding written
  put_bytes-buffer =
      ground (arith, shape, copy_down-eq-copy n after.buffer s.position source offset inside)

  written_shape :
      ((written source offset n s).origin ≡ s.origin)
      × ((written source offset n s).position ≡ s.position + n)
      × ((written source offset n s).length ≡ max s.length (s.position + n))
      × ((written source offset n s).is_open ≡ s.is_open)
      × ((written source offset n s).writable ≡ s.writable)
      × ((written source offset n s).expandable ≡ s.expandable)
  unfolding written
  written_shape = ground (arith, shape)

  pub written-IsValid : IsValid (written source offset n s)
  unfolding written
  written-IsValid =
      let valid = extended-IsValid (s.position + n) s v room in
      record {
        origin-le-length = valid.origin-le-length;
        origin-le-position = omega (arith, shape);
        length-le-capacity = valid.length-le-capacity;
        capacity-le-buffer = omega (
          arith,
          valid.capacity-le-buffer,
          ap length put_bytes-buffer,
          length-blit after.buffer s.position (slice source offset (offset + n)),
        );
        expandable_origin = valid.expandable_origin;
        expandable_buffer = λ e.
            valid.expandable_buffer e
            ∙ sym (ap length put_bytes-buffer ∙ length-blit after.buffer s.position _);
        closed_readonly = valid.closed_readonly;
      }

  room_for_write : s.position + n ≤ length after.buffer
  room_for_write =
      let valid = extended-IsValid (s.position + n) s v room in
      let long : s.position + n ≤ after.length = ground (arith, shape) in omega arith

  -- Each byte that the stream then stands for.
  get_or-written :
      (j : ℕ)
      → get_or (written source offset n s).buffer j 0 ≡ (
          if leb s.position j && ltb j (s.position + n)
          then get_or source (offset + (j - s.position)) 0
          else get_or after.buffer j 0)
  get_or-written j =
      rw put_bytes-buffer
        (get_or-copy source after.buffer s.position offset n j inside room_for_write)

  -- The index of the stream's first byte, in the sequence that it stands for.
  abbrev at : ℕ
  at = s.position - s.origin

  abbrev bytes : List ℕ
  bytes = slice source offset (offset + n)

  -- The bytes outside the write, and the zeros before it.
  after_kept :
      (j : ℕ)
      → s.origin + j < max s.length s.position
      → get_or after.buffer (s.origin + j) 0 ≡ get_or (contents s) j 0
  after_kept j h = ground (
    arith,
    get_or-slice s.buffer s.origin s.length j 0,
    extended_keeps (s.position + n) s (s.origin + j) v,
    extended_zero (s.position + n) s (s.origin + j) v,
  )

  abbrev expected : ℕ → ℕ
  expected j =
      if leb at j && ltb j (at + n)
      then get_or source (offset + (j - at)) 0
      else get_or (contents s) j 0

  written_byte :
      (j : ℕ)
      → j < length (contents (written source offset n s))
      → get_or (contents (written source offset n s)) j 0 ≡ expected j
  written_byte j h =
      let t = written source offset n s in
      ground (
        arith,
        written_shape,
        length-contents t written-IsValid,
        get_or-slice t.buffer t.origin t.length j 0,
        get_or-written (s.origin + j),
        after_kept j,
      )

  overwritten_byte : (j : ℕ) → get_or (overwrite (contents s) at bytes) j 0 ≡ expected j
  overwritten_byte j = ground (
    arith,
    get_or-overwrite (contents s) at bytes j,
    length-slice source offset (offset + n),
    get_or-slice source offset (offset + n) (j - at) 0,
  )

  written-contents : contents (written source offset n s) ≡ overwrite (contents s) at bytes
  written-contents =
      let t = written source offset n s in
      list_ext 0 _ _
        (omega (
          arith,
          written_shape,
          length-contents s v,
          length-contents t written-IsValid,
          length-overwrite (contents s) at bytes,
          length-slice source offset (offset + n),
        ))
        (λ j lt. written_byte j lt ∙ sym (overwritten_byte j))

-- A write of `n` bytes to a stream that is open, writable and has room for them (or can grow)
-- succeeds; the stream then stands for the old bytes overwritten at the position, with zeros in a gap
-- before it; its position moves behind the write, its origin and its flags stay, and its invariant
-- holds.
pub write-overwrite :
    (source : List ℕ) (offset n : ℕ) (s : MemoryStream)
    → IsValid s
    → s.is_open ≡ true
    → s.writable ≡ true
    → offset + n ≤ length source
    → (s.expandable ≡ true) ⊎ (s.position + n ≤ s.capacity)
    → (t : MemoryStream) × (write source (pos offset) (pos n) s ≡ done tt t)
      × (contents t
          ≡ overwrite (contents s) (s.position - s.origin) (slice source offset (offset + n)))
      × (t.position ≡ s.position + n)
      × (t.origin ≡ s.origin)
      × (t.is_open ≡ s.is_open)
      × (t.writable ≡ s.writable)
      × (t.expandable ≡ s.expandable)
      × IsValid t
write-overwrite source offset n s v o w inside room =
    let shape = written_shape source offset n s v o w inside room in
    (
      written source offset n s,
      write_lem source offset n s v o w inside room,
      written-contents source offset n s v o w inside room,
      shape.1,
      shape.0,
      shape.3,
      shape.4,
      shape.5,
      written-IsValid source offset n s v o w inside room,
    )

-- A write of a part of the source past the capacity of a fixed buffer, to a stream in order that is
-- open and writable, throws, and the stream is as it was.
pub write_fixed :
    (source : List ℕ) (offset n : ℕ) (s : MemoryStream)
    → IsValid s
    → s.is_open ≡ true
    → s.writable ≡ true
    → s.expandable ≡ false
    → offset + n ≤ length source
    → s.capacity < s.position + n
    → write source (pos offset) (pos n) s ≡ thrown not_expandable s
unfolding write
write_fixed source offset n s v o w fixed inside h = ground (
  arith,
  validate_buffer_arguments-done source offset n s inside,
  extend_fixed (s.position + n) s v o fixed,
  pos-+ℤ s.position n,
)
