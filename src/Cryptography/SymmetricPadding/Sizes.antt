-- ===== src/Cryptography/SymmetricPadding/Sizes.antt =====
-- The sizes that the padding functions agree on.
use yohira.Common.{
  ℕ, ◌+◌, ◌-◌, ◌*◌, ◌/◌, ◌%◌, ◌≤◌, ◌<◌, ◌≡◌, List, length, arith, Result, ok, err, length-blit,
  replicate, slice, if◌then◌else◌, ◌==◌, blit,
}
use native.Mathlib.Nat.{div-add-mod', mod-lt}
use yohira.Cryptography.SymmetricPadding.{
  PaddingMode, none, pkcs7, zeros, ansix923, iso10126, CryptoError, destination_too_short,
  pad_count, get_ciphertext_length, pad_block, pad_bytes,
}

pub whole_blocks_add : (n p : ℕ) → 0 < p → n / p * p + p ≡ n + (p - n % p)
whole_blocks_add n p h = omega (arith, div-add-mod' n p, mod-lt n h)

-- What `padBlock` returns and leaves in the destination, given the size that the caller computed.
abbrev pub Sized : List ℕ → Result CryptoError ℕ → Result CryptoError (ℕ × List ℕ) → Type 0
Sized destination (ok n) (ok (m, d)) = (m ≡ n) × (length d ≡ length destination) × (n ≤ length d)
Sized destination (ok n) (err e) = (e ≡ destination_too_short) × (length destination < n)
Sized destination (err e) (ok _) = ⊥
Sized destination (err e) (err f) = e ≡ f

-- For every mode and block, `padBlock` agrees with `getCiphertextLength`: it fails with the same
-- error; or the destination is too short for that length; or it returns that length, and a
-- destination as long as it was.
pub pad_block-Sized :
    (random : ℕ → List ℕ) (block destination : List ℕ) (size : ℕ) (mode : PaddingMode)
    → 0 < size
    → Sized destination
        (get_ciphertext_length (length block) size mode)
        (pad_block random block destination size mode)
unfolding get_ciphertext_length pad_block
pad_block-Sized random block destination size none h =
    ground (arith, length-blit destination 0 block)
pad_block-Sized random block destination size pkcs7 h =
    let count = length block in
    let pad = pad_bytes count size in
    ground (
      arith,
      whole_blocks_add count size h,
      length-blit destination 0 block,
      length-blit (blit destination 0 block) count (replicate pad (pad % 256)),
    )
pad_block-Sized random block destination size zeros h =
    let count = length block in
    let pad = if pad_bytes count size == size then 0 else pad_bytes count size in
    ground (
      arith,
      whole_blocks_add count size h,
      mod-lt count h,
      length-blit destination 0 block,
      length-blit (blit destination 0 block) count (replicate (pad - count) 0),
    )
pad_block-Sized random block destination size ansix923 h =
    let count = length block in
    let pad = pad_bytes count size in
    let d = blit destination 0 block in
    let filled = blit d count (replicate (pad - 1) 0) in
    ground (
      arith,
      whole_blocks_add count size h,
      length-blit destination 0 block,
      length-blit d count (replicate (pad - 1) 0),
      length-blit filled (count + pad - 1) (pad_count pad),
    )
pad_block-Sized random block destination size iso10126 h =
    let count = length block in
    let pad = pad_bytes count size in
    let d = blit destination 0 block in
    let noise = slice (random (count + pad - 1)) 0 (pad - 1) in
    ground (
      arith,
      whole_blocks_add count size h,
      length-blit destination 0 block,
      length-blit d count noise,
      length-blit (blit d count noise) (count + pad - 1) (pad_count pad),
    )
