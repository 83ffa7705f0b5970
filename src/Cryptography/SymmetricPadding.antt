-- ===== src/Cryptography/SymmetricPadding.antt =====
-- packages/cryptography/src/SymmetricPadding.ts and PaddingMode.ts. Lengths are naturals, so the
-- assertion on a negative length cannot fail.
pub mod Sizes
pub mod RoundTrip
use yohira.Common.{
  ℕ, ◌+◌, ◌-◌, ◌*◌, ◌/◌, ◌%◌, Bool, true, false, not, ◌||◌, ◌&&◌, List, [], ◌∷◌, ltb, leb, ◌==◌,
  if◌then◌else◌, length, get_or, replicate, slice, blit, Result, ok, err, ℤ, pos, sub_ℕ,
}

pub data PaddingMode : Type 0 where
  none pkcs7 zeros ansix923 iso10126 : PaddingMode

-- The errors of this module and of the transforms.
pub data CryptoError : Type 0 where
  incomplete_block destination_too_short invalid_padding not_implemented : CryptoError
  assertion_failed bad_offset bad_count bad_buffer reused_without_reset : CryptoError
  -- No error of the code: it reads past the end of an empty block, and returns NaN.
  reads_undefined : CryptoError

abbrev pub whole_blocks : ℕ → ℕ → ℕ
whole_blocks n size = n / size * size

unfoldable pub get_ciphertext_length : ℕ → ℕ → PaddingMode → Result CryptoError ℕ
get_ciphertext_length plaintext_length size none =
    if plaintext_length % size == 0 then ok plaintext_length else err incomplete_block
get_ciphertext_length plaintext_length size zeros =
    if plaintext_length % size == 0
    then ok plaintext_length
    else ok (whole_blocks plaintext_length size + size)
get_ciphertext_length plaintext_length size _ = ok (whole_blocks plaintext_length size + size)

-- The number of bytes that complete the last block: `size` if it is complete.
abbrev pub pad_bytes : ℕ → ℕ → ℕ
pad_bytes count size = size - count % size

-- Every mode first tests that the destination can hold the result, and copies the block.
abbrev pub pad_into : List ℕ → List ℕ → ℕ → (List ℕ → List ℕ) → Result CryptoError (ℕ × List ℕ)
pad_into block destination size finish =
    if ltb (length destination) size
    then err destination_too_short
    else ok (size, finish (blit destination 0 block))

-- The last byte, as a buffer stores it.
abbrev pub pad_count : ℕ → List ℕ
pad_count pad = pad % 256 ∷ []

-- Returns the size of the padded block, and the destination. `random n` are Node's `n` random bytes;
-- the copy of them is cut to the bytes before the last.
unfoldable pub pad_block :
    (ℕ → List ℕ) → List ℕ → List ℕ → ℕ → PaddingMode → Result CryptoError (ℕ × List ℕ)
pad_block random block destination size none =
    if length block % size == 0
    then pad_into block destination (length block) (λ d. d)
    else err incomplete_block
pad_block random block destination size ansix923 =
    let count = length block in
    let pad = pad_bytes count size in
    pad_into block destination (count + pad)
      λ d. blit (blit d count (replicate (pad - 1) 0)) (count + pad - 1) (pad_count pad)
pad_block random block destination size iso10126 =
    let count = length block in
    let pad = pad_bytes count size in
    pad_into block destination (count + pad) λ d.
      blit (blit d count (slice (random (count + pad - 1)) 0 (pad - 1))) (count + pad - 1)
        (pad_count pad)
pad_block random block destination size pkcs7 =
    let count = length block in
    let pad = pad_bytes count size in
    pad_into block destination (count + pad) λ d. blit d count (replicate pad (pad % 256))
-- `destination.subarray(count, padBytes).fill(0)`: its end is a length, where an index is meant.
pad_block random block destination size zeros =
    let count = length block in
    let pad = if pad_bytes count size == size then 0 else pad_bytes count size in
    pad_into block destination (count + pad) λ d. blit d count (replicate (pad - count) 0)

unfoldable pub depadding_required : PaddingMode → Bool
depadding_required pkcs7 = true
depadding_required ansix923 = true
depadding_required iso10126 = true
depadding_required zeros = false
depadding_required none = false

unfoldable pub all_equal : List ℕ → ℕ → Bool
all_equal [] value = true
all_equal (b ∷ bs) value = b == value && all_equal bs value

-- `padBytes <= 0 || padBytes > blockSize`
abbrev pub unreasonable : ℕ → ℕ → Bool
unreasonable pad block_size = leb pad 0 || ltb block_size pad

-- The tests of a mode on the last byte `pad` of a block that is not empty. In PKCS7 a count above the
-- block's length makes the loop read `undefined`, which is no padding byte.
unfoldable pub check_padding : List ℕ → PaddingMode → ℕ → ℕ → Result CryptoError ℕ
check_padding block ansix923 block_size pad =
    if unreasonable pad block_size then err invalid_padding else err not_implemented
check_padding block iso10126 block_size pad =
    if unreasonable pad block_size then err invalid_padding else ok pad
check_padding block pkcs7 block_size pad =
    if unreasonable pad block_size
    then err invalid_padding
    else if ltb (length block) pad
    then err invalid_padding
    else if all_equal (slice block (length block - pad) (length block - 1)) pad
    then ok pad
    else err invalid_padding
check_padding block _ block_size pad = ok 0

-- The length of the block without its padding, which is negative where an ISO10126 count exceeds the
-- block.
unfoldable pub get_padding_length : List ℕ → PaddingMode → ℕ → Result CryptoError ℤ
get_padding_length [] mode block_size =
    if depadding_required mode then err reads_undefined else ok (pos 0)
get_padding_length (b ∷ bs) mode block_size =
    let block = b ∷ bs in
    elim (check_padding block mode block_size (get_or block (length block - 1) 0)) [
      | ok pad ↦ ok (sub_ℕ (length block) pad)
      | err e ↦ err e
    ]
