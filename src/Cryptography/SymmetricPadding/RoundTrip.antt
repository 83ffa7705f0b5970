-- ===== src/Cryptography/SymmetricPadding/RoundTrip.antt =====
-- Padding is removed again: `getPaddingLength` after `padBlock`.
use yohira.Common.{
  ℕ, suc, ◌+◌, ◌-◌, ◌%◌, ◌≤◌, ◌<◌, ◌≡◌, refl, ◌∙◌, ◌⊎◌, inl, inr, true, false, List, [], ◌∷◌,
  length, take, get_or, arith, ok, length-blit, replicate, slice, if◌then◌else◌, ◌==◌, blit, ltb,
  pos, list_ext, get_or-blit, get_or-take, length-take, get_or-slice, length-slice,
  length-replicate, get_or-replicate_lt,
}
use native.Mathlib.Nat.{mod-lt}
use yohira.Cryptography.SymmetricPadding.{
  PaddingMode, pkcs7, zeros, iso10126, pad_block, pad_bytes, pad_count, all_equal, check_padding,
  get_padding_length,
}

pub all_equal-of :
    (xs : List ℕ) (value : ℕ)
    → ((j : ℕ) → j < length xs → get_or xs j 0 ≡ value)
    → all_equal xs value ≡ true
unfolding all_equal
all_equal-of [] value h = refl
all_equal-of (x ∷ xs) value h =
    ground (arith, h 0 (omega arith), all_equal-of xs value (λ j lt. h (suc j) (omega arith)))

-- A block that ends in a byte `pad`, all of whose last `pad` bytes are `pad`, passes PKCS7's tests.
pub check_padding-pkcs7 :
    (block : List ℕ) (block_size pad : ℕ)
    → 0 < pad
    → pad ≤ block_size
    → pad ≤ length block
    → ((j : ℕ) → length block - pad ≤ j → j < length block → get_or block j 0 ≡ pad)
    → check_padding block pkcs7 block_size pad ≡ ok pad
unfolding check_padding
check_padding-pkcs7 block block_size pad h k m all =
    let tail = slice block (length block - pad) (length block - 1) in
    let same : all_equal tail pad ≡ true = all_equal-of tail pad λ j lt. ground (
      arith,
      lt,
      length-slice block (length block - pad) (length block - 1),
      get_or-slice block (length block - pad) (length block - 1) j 0,
      all (length block - pad + j),
    ) in
    ground (arith, same)

get_padding_length-ok :
    (block : List ℕ) (mode : PaddingMode) (block_size pad : ℕ)
    → 0 < length block
    → check_padding block mode block_size (get_or block (length block - 1) 0) ≡ ok pad
    → pad ≤ length block
    → get_padding_length block mode block_size ≡ ok (pos (length block - pad))
unfolding get_padding_length
get_padding_length-ok [] mode block_size pad h e k = absurd (omega arith)
get_padding_length-ok (b ∷ bs) mode block_size pad h e k = rw (e, get_padding_length) (ground arith)

check_padding-iso10126 :
    (block : List ℕ) (block_size pad : ℕ)
    → 0 < pad
    → pad ≤ block_size
    → check_padding block iso10126 block_size pad ≡ ok pad
unfolding check_padding
check_padding-iso10126 block block_size pad h k = ground arith

module _ (random : ℕ → List ℕ) (block destination : List ℕ) (size : ℕ) (size_pos : 0 < size)
    (size_byte : size < 256) where
  abbrev count : ℕ
  count = length block

  abbrev pad : ℕ
  pad = pad_bytes count size

  pad_bounds : (0 < pad) × (pad ≤ size)
  pad_bounds = omega (arith, mod-lt count size_pos)

  module _ (room : count + pad ≤ length destination) where
    pkcs7_padded : List ℕ
    pkcs7_padded = blit (blit destination 0 block) count (replicate pad (pad % 256))

    -- What PKCS7 leaves at each index of the padded block.
    pkcs7_byte :
        (j : ℕ)
        → j < count + pad
        → get_or (take (count + pad) pkcs7_padded) j 0
          ≡ (if ltb j count then get_or block j 0 else pad)
    unfolding pkcs7_padded
    pkcs7_byte j h =
        let fits : pad % 256 ≡ pad = omega (arith, pad_bounds) in
        rw fits (
          ground (
            arith,
            get_or-take (count + pad) (blit (blit destination 0 block) count (replicate pad pad)) j
                0,
            get_or-blit (blit destination 0 block) count (replicate pad pad) j 0,
            length-replicate pad pad,
            length-blit destination 0 block,
            get_or-blit destination 0 block j 0,
            get_or-replicate_lt pad (j - count) pad 0,
          ))

    noise : List ℕ
    noise = slice (random (count + pad - 1)) 0 (pad - 1)

    iso10126_padded : List ℕ
    iso10126_padded =
        blit (blit (blit destination 0 block) count noise) (count + pad - 1) (pad_count pad)

    -- What ISO10126 leaves before the padding, and in the last byte.
    iso10126_byte :
        (j : ℕ)
        → j < count + pad
        → (j < count) ⊎ (j ≡ count + pad - 1)
        → get_or (take (count + pad) iso10126_padded) j 0
          ≡ (if ltb j count then get_or block j 0 else pad)
    unfolding iso10126_padded
    iso10126_byte j h at =
        let copied = blit destination 0 block in
        let noisy = blit copied count noise in
        let fits : pad % 256 ≡ pad = omega (arith, pad_bounds) in
        ground (
          arith,
          fits,
          pad_bounds,
          get_or-take (count + pad) (blit noisy (count + pad - 1) (pad_count pad)) j 0,
          get_or-blit noisy (count + pad - 1) (pad_count pad) j 0,
          length-blit copied count noise,
          get_or-blit copied count noise j 0,
          length-blit destination 0 block,
          get_or-blit destination 0 block j 0,
        )

    padded_length :
        (d : List ℕ) → length d ≡ length destination → length (take (count + pad) d) ≡ count + pad
    padded_length d e = omega (arith, length-take (count + pad) d)

    -- The block stands at the front of what was padded.
    front :
        (d : List ℕ)
        → length d ≡ length destination
        → ((j : ℕ) → j < count → get_or (take (count + pad) d) j 0 ≡ get_or block j 0)
        → take count d ≡ block
    front d e same = list_ext 0 _ _ (omega (arith, length-take count d)) λ j lt. ground (
      arith,
      lt,
      length-take count d,
      get_or-take count d j 0,
      get_or-take (count + pad) d j 0,
      same j,
    )

    length-pkcs7 : length pkcs7_padded ≡ length destination
    unfolding pkcs7_padded
    length-pkcs7 =
        length-blit (blit destination 0 block) count (replicate pad (pad % 256))
        ∙ length-blit destination 0 block

    length-iso10126 : length iso10126_padded ≡ length destination
    unfolding iso10126_padded
    length-iso10126 =
        length-blit (blit (blit destination 0 block) count noise) (count + pad - 1) (pad_count pad)
        ∙ length-blit (blit destination 0 block) count noise
        ∙ length-blit destination 0 block

    size_is : (d : List ℕ) → length d ≡ length destination → ltb (length d) (count + pad) ≡ false
    size_is d e = ground (arith, room)

    -- A padded block of which a mode's tests accept the count is stripped to the block.
    stripped :
        (mode : PaddingMode) (d : List ℕ)
        → length d ≡ length destination
        → get_or (take (count + pad) d) (count + pad - 1) 0 ≡ pad
        → check_padding (take (count + pad) d) mode size pad ≡ ok pad
        → get_padding_length (take (count + pad) d) mode size ≡ ok (pos count)
    stripped mode d e last accepted =
        let block' = take (count + pad) d in
        let long = padded_length d e in
        let last' : get_or block' (length block' - 1) 0 ≡ pad = rw long last in
        let rest : length block' - pad ≡ count = omega (arith, long) in
        rw rest at (
          get_padding_length-ok block' mode size pad (omega (arith, long, pad_bounds))
            (rw last' accepted) (omega (arith, long)))

    pad_pkcs7 : pad_block random block destination size pkcs7 ≡ ok (count + pad, pkcs7_padded)
    unfolding pad_block pkcs7_padded
    pad_pkcs7 = rw (size_is destination refl)

    pad_iso10126 :
        pad_block random block destination size iso10126 ≡ ok (count + pad, iso10126_padded)
    unfolding pad_block iso10126_padded noise
    pad_iso10126 = rw (size_is destination refl)

    strip_pkcs7 : get_padding_length (take (count + pad) pkcs7_padded) pkcs7 size ≡ ok (pos count)
    strip_pkcs7 =
        let long = padded_length pkcs7_padded length-pkcs7 in
        stripped pkcs7 pkcs7_padded length-pkcs7
          (ground (arith, pad_bounds, pkcs7_byte (count + pad - 1)))
          (check_padding-pkcs7 (take (count + pad) pkcs7_padded) size pad pad_bounds.0 pad_bounds.1
            (omega (arith, long)) (λ j from below. ground (arith, long, from, below, pkcs7_byte j)))

    strip_iso10126 :
        get_padding_length (take (count + pad) iso10126_padded) iso10126 size ≡ ok (pos count)
    strip_iso10126 =
        stripped iso10126 iso10126_padded length-iso10126
          (ground (arith, pad_bounds, iso10126_byte (count + pad - 1)))
          (check_padding-iso10126 (take (count + pad) iso10126_padded) size pad pad_bounds.0
            pad_bounds.1)

-- In a mode that pads and strips, PKCS7 or ISO10126, with a block size from 1 to 255 and room in the
-- destination: `padBlock` returns the size of the padded block; `getPaddingLength` on that much of the
-- destination returns the length of the block; and that much of it is the block.
pub get_padding_length-pad_block :
    (random : ℕ → List ℕ) (block destination : List ℕ) (size : ℕ) (mode : PaddingMode)
    → (mode ≡ pkcs7) ⊎ (mode ≡ iso10126)
    → 0 < size
    → size < 256
    → length block + pad_bytes (length block) size ≤ length destination
    → let n = length block + pad_bytes (length block) size in
      (d : List ℕ) × (pad_block random block destination size mode ≡ ok (n, d))
      × (get_padding_length (take n d) mode size ≡ ok (pos (length block)))
      × (take (length block) d ≡ block)
      × (length d ≡ length destination)
get_padding_length-pad_block random block destination size mode (inl e) h k room = rw e (
  pkcs7_padded random block destination size h k room,
  pad_pkcs7 random block destination size h k room,
  strip_pkcs7 random block destination size h k room,
  front random block destination size h k room _
      (length-pkcs7 random block destination size h k room)
      (λ j lt. ground (arith, lt, pkcs7_byte random block destination size h k room j)),
  length-pkcs7 random block destination size h k room,
)
get_padding_length-pad_block random block destination size mode (inr e) h k room = rw e (
  iso10126_padded random block destination size h k room,
  pad_iso10126 random block destination size h k room,
  strip_iso10126 random block destination size h k room,
  front random block destination size h k room _
      (length-iso10126 random block destination size h k room)
      (λ j lt. ground (arith, lt, iso10126_byte random block destination size h k room j)),
  length-iso10126 random block destination size h k room,
)

-- With Zeros and a block at least as long as the padding that it lacks, `padBlock` fills nothing: the
-- bytes that should be zero stay what the destination held.
pub pad_block-zeros_keeps :
    (random : ℕ → List ℕ) (block destination : List ℕ) (size j : ℕ)
    → 0 < size
    → pad_bytes (length block) size ≤ length block
    → length block + pad_bytes (length block) size ≤ length destination
    → length block ≤ j
    → (n : ℕ) × (d : List ℕ) × (pad_block random block destination size zeros ≡ ok (n, d))
      × (get_or d j 0 ≡ get_or destination j 0)
unfolding pad_block
pad_block-zeros_keeps random block destination size j h short room from =
    let count = length block in
    let pad = if pad_bytes count size == size then 0 else pad_bytes count size in
    let none_left : pad - count ≡ 0 = ground arith in
    let copied = blit destination 0 block in
    (
      count + pad,
      blit copied count (replicate (pad - count) 0),
      ground arith,
      rw none_left
          (ground (arith, get_or-blit copied count [] j 0, get_or-blit destination 0 block j 0)),
    )
