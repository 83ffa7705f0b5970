-- ===== src/Cryptography/CryptoTransform.antt =====
-- packages/cryptography/src/UniversalCryptoTransform.ts: the tests of the two public methods, the
-- encryptor, and the decryptor with its held-over block. Offsets and counts are naturals, so the tests
-- for negative ones cannot fail. A method returns the output buffer beside its result.
pub mod Blockwise
pub mod Streaming
pub mod Chunks
pub mod Final
use yohira.Common.{
  ℕ, ◌+◌, ◌-◌, ◌%◌, Bool, true, false, not, List, [], ◌++◌, ltb, leb, ◌==◌, if◌then◌else◌, length,
  take, drop, Option, none, some, ℤ, pos, negsuc, eqb_ℤ, Outcome, done, thrown, Result, ok, err,
  Action, ◌>>=◌, ◌>>◌, throw, throw_if, pure, slice, alloc, blit,
}
use yohira.Cryptography.SymmetricPadding.{
  PaddingMode, CryptoError, incomplete_block, assertion_failed, bad_offset, bad_count, bad_buffer,
  get_ciphertext_length, pad_block, depadding_required, get_padding_length,
}
use yohira.Cryptography.OpenSslCipher.{Cipher, transform, transform_final}

pub record CryptoTransform (Ctx : Type 0) : Type 0 where
  pub cipher : Cipher Ctx
  pub padding_mode : PaddingMode
  pub heldover_cipher : Option (List ℕ)

abbrev pub M : Type 0 → Type 0 → Type 0
M Ctx A = Action CryptoError (CryptoTransform Ctx) A

-- A call of the cipher's method.
abbrev pub on_cipher : {Ctx A : Type 0} → Action CryptoError (Cipher Ctx) A → M Ctx A
on_cipher m s = elim (m s.cipher) [
  | done a c ↦ done a (record s { cipher = c })
  | thrown e c ↦ thrown e (record s { cipher = c })
]

abbrev pub or_throw : {Ctx A : Type 0} → Result CryptoError A → M Ctx A
or_throw (ok a) s = done a s
or_throw (err e) s = thrown e s

-- `buffer.subarray(0, end)`, where a negative end counts from the back.
abbrev pub front : List ℕ → ℤ → List ℕ
front buffer (pos n) = take n buffer
front buffer (negsuc n) = take (length buffer - (n + 1)) buffer

-- The bytes still to be decrypted: the held-over block and the input.
abbrev pub pending : Option (List ℕ) → List ℕ → List ℕ
pending none input = input
pending (some held) input = held ++ input

-- `unpaddedLength`: 0 where nothing was decrypted.
abbrev pub unpad : List ℕ → PaddingMode → ℕ → Result CryptoError ℤ
unpad [] mode block_size = ok (pos 0)
unpad decrypted mode block_size = get_padding_length decrypted mode block_size

abbrev pub held_size : Option (List ℕ) → ℕ
held_size none = 0
held_size (some held) = length held

module _ {Ctx : Type 0} where
  -- Keeps as much of the input's end as the held-over buffer is long, and gives what is before it.
  unfoldable pub hold_back : List ℕ → M Ctx (List ℕ)
  hold_back input s =
      let size = held_size s.heldover_cipher in
      (do
        throw_if (ltb (length input) size) assertion_failed
        λ t.
            done (take (length input - size) input)
              (record t { heldover_cipher = some (drop (length input - size) input) }))
        s

module _ {Ctx : Type 0} (update : Ctx → List ℕ → List ℕ × Ctx) where
  -- UniversalCryptoEncryptor's `uncheckedTransformBlockCore`: the number of bytes, and the output.
  unfoldable pub encrypt_block : List ℕ → List ℕ → M Ctx (ℕ × List ℕ)
  encrypt_block input output = do
    bytes ← on_cipher (transform update input)
    pure (length bytes, blit output 0 bytes)

  -- UniversalCryptoEncryptor's `uncheckedTransformFinalBlock` with its core.
  unfoldable pub encrypt_final : (ℕ → List ℕ) → List ℕ → M Ctx (List ℕ)
  encrypt_final random input s =
      (do
        size ← or_throw (get_ciphertext_length (length input) s.cipher.padding_size s.padding_mode)
        (padded, buffer) ←
            or_throw (pad_block random input (alloc size) s.cipher.padding_size s.padding_mode)
        bytes ← on_cipher (transform_final update (take padded buffer) (length buffer))
        throw_if (not (padded == length bytes)) assertion_failed
        throw_if (not (length bytes == length buffer)) assertion_failed
        pure (blit buffer 0 bytes))
        s

  -- The held-over block, decrypted, if there is one; else a buffer for one.
  unfoldable pub release : M Ctx (List ℕ)
  release s = elim s.heldover_cipher [
    | none ↦ done [] (record s { heldover_cipher = some (alloc s.cipher.block_size) })
    | some held ↦ on_cipher (transform update held) s
  ]

  -- Decrypts what is left of the input, if anything is.
  unfoldable pub decrypt_rest : List ℕ → M Ctx (List ℕ)
  decrypt_rest [] s = done [] s
  decrypt_rest input s = on_cipher (transform update input) s

  -- UniversalCryptoDecryptor's `uncheckedTransformBlockCore`. What it decrypts of the held-over block
  -- stands at the front of the output, and the rest behind it.
  unfoldable pub decrypt_block : List ℕ → List ℕ → M Ctx (ℕ × List ℕ)
  decrypt_block input output s =
      if depadding_required s.padding_mode
      then (do
        first ← release
        ahead ← hold_back input
        throw_if (not (length ahead % s.cipher.block_size == 0)) assertion_failed
        rest ← decrypt_rest ahead
        pure (length first + length rest, blit (blit output 0 first) (length first) rest))
          s
      else (do bytes ← decrypt_rest input; pure (length bytes, blit output 0 bytes)) s

  -- UniversalCryptoDecryptor's `uncheckedTransformFinalBlockCore`. The held-over block goes only where
  -- the padding was valid.
  unfoldable pub decrypt_final_core : List ℕ → List ℕ → M Ctx (ℤ × List ℕ)
  decrypt_final_core input output s =
      (do
        throw_if (not (length input % s.cipher.padding_size == 0)) incomplete_block
        bytes ← on_cipher (
            transform_final update (pending s.heldover_cipher input)
              (length (pending s.heldover_cipher input)))
        let decrypted =
            take (length bytes) (blit (alloc (length (pending s.heldover_cipher input))) 0 bytes)
        unpadded ← or_throw (unpad decrypted s.padding_mode s.cipher.block_size)
        λ t. done tt (record t { heldover_cipher = none })
        pure (unpadded, blit output 0 (front decrypted unpadded)))
        s

  -- UniversalCryptoDecryptor's `uncheckedTransformFinalBlock`.
  unfoldable pub decrypt_final : List ℕ → M Ctx (List ℕ)
  decrypt_final input s =
      if depadding_required s.padding_mode
      then (do
        (written, rented) ← decrypt_final_core input (alloc (length input + s.cipher.block_size))
        pure (front rented written))
          s
      else (do
        (written, buffer) ← decrypt_final_core input (alloc (length input))
        throw_if (not (eqb_ℤ written (pos (length buffer)))) assertion_failed
        pure buffer)
          s

module _ {Ctx : Type 0} where
  -- The decryptor's `[Symbol.dispose]`, of its own state.
  unfoldable pub dispose : M Ctx (Unit {0})
  dispose s = done tt (record s { heldover_cipher = none })

  -- `transformBlock` over a subclass's `uncheckedTransformBlockCore`. The core sees the output from the
  -- offset on.
  unfoldable pub transform_block :
      (List ℕ → List ℕ → M Ctx (ℕ × List ℕ)) → List ℕ → ℕ → ℕ → List ℕ → ℕ → M Ctx (ℕ × List ℕ)
  transform_block core input offset count output output_offset = do
    throw_if (ltb (length input) offset) bad_offset
    throw_if (leb count 0) bad_count
    λ s. throw_if (not (count % s.cipher.block_size == 0)) bad_count s
    throw_if (ltb (length input - offset) count) bad_buffer
    throw_if (ltb (length output) output_offset) bad_offset
    throw_if (ltb (length output - output_offset) count) bad_buffer
    (written, rest) ← core (slice input offset (offset + count)) (drop output_offset output)
    throw_if (ltb count written) assertion_failed
    pure (written, take output_offset output ++ rest)

  -- `transformFinalBlock` over a subclass's `uncheckedTransformFinalBlock`.
  unfoldable pub transform_final_block : (List ℕ → M Ctx (List ℕ)) → List ℕ → ℕ → ℕ → M Ctx (List ℕ)
  transform_final_block core input offset count = do
    throw_if (ltb (length input) offset) bad_offset
    throw_if (ltb (length input - offset) count) bad_buffer
    core (slice input offset (offset + count))
