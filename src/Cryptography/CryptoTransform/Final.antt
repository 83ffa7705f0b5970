-- ===== src/Cryptography/CryptoTransform/Final.antt =====
-- The two transformFinalBlock cores, one after the other.
use yohira.Common.{
  ℕ, ◌+◌, ◌*◌, ◌/◌, subst, ◌%◌, ◌≤◌, ◌<◌, ◌≡◌, refl, sym, ap, ◌∙◌, ◌⊎◌, inl, inr, true, not, List,
  [], ◌∷◌, length, take, length-take, take-take, none, done, ok, ◌>>=◌, ◌>>◌, >>=-done, throw_if,
  pure, arith, ℤ, pos, alloc, blit, take-blit, blit_whole, length-alloc, ◌==◌,
}
use native.Mathlib.Nat.{add-mod_right, mod-lt, mul-mod_left}
use yohira.Cryptography.SymmetricPadding.{
  PaddingMode, pkcs7, iso10126, assertion_failed, depadding_required, get_padding_length,
  get_ciphertext_length, pad_block, pad_bytes,
}
use yohira.Cryptography.SymmetricPadding.Sizes.{whole_blocks_add}
use yohira.Cryptography.SymmetricPadding.RoundTrip.{get_padding_length-pad_block}
use yohira.Cryptography.OpenSslCipher.{transform_final}
use yohira.Cryptography.CryptoTransform.{
  CryptoTransform, M, on_cipher, or_throw, front, pending, unpad, encrypt_final, decrypt_final,
  decrypt_final_core,
}
use yohira.Cryptography.CryptoTransform.Blockwise.{Blockwise, Undoes}
use yohira.Cryptography.CryptoTransform.Streaming.{
  IsReady, advance, holding, on_cipher-transform_final,
}

unpad_lem :
    (b : List ℕ) (mode : PaddingMode) (size n : ℕ)
    → 0 < length b
    → get_padding_length b mode size ≡ ok (pos n)
    → unpad b mode size ≡ ok (pos n)
unpad_lem [] mode size n h k = ground arith
unpad_lem (x ∷ b) mode size n h k = k

module _ {Ctx : Type 0} (update : Ctx → List ℕ → List ℕ × Ctx) where
  abbrev deposit : List ℕ → List ℕ → ℤ → M Ctx (ℤ × List ℕ)
  deposit decrypted output unpadded =
      (λ t. done tt (record t { heldover_cipher = none }))
      >> pure (unpadded, blit output 0 (front decrypted unpadded))

  -- What `decrypt_final_core` does with the cipher's bytes.
  abbrev strip : PaddingMode → ℕ → List ℕ → ℕ → List ℕ → M Ctx (ℤ × List ℕ)
  strip mode size output room bytes =
      or_throw (unpad (take (length bytes) (blit (alloc room) 0 bytes)) mode size)
      >>= deposit (take (length bytes) (blit (alloc room) 0 bytes)) output

  decrypt_final_core_lem :
      (input output : List ℕ) (s : CryptoTransform Ctx) (n : ℕ)
      → let x = pending s.heldover_cipher input in
        let b = (update s.cipher.ctx x).0 in
        IsReady update s
        → length input % s.cipher.block_size ≡ 0
        → length x % s.cipher.block_size ≡ 0
        → length b ≡ length x
        → 0 < length b
        → get_padding_length b s.padding_mode s.cipher.block_size ≡ ok (pos n)
        → decrypt_final_core update input output s
          ≡ done (pos n, blit output 0 (take n b)) (holding none (advance update x s))
  unfolding decrypt_final_core
  decrypt_final_core_lem input output s n r k l sized some_bytes e =
      let x = pending s.heldover_cipher input in
      let b = (update s.cipher.ctx x).0 in
      let room = length-alloc (length x) in
      let whole : take (length b) (blit (alloc (length x)) 0 b) ≡ b =
        take-blit (alloc (length x)) b (omega arith) in
      let aligned : length input % s.cipher.padding_size ≡ 0 =
        ap (λ p. length input % p) r.same_size ∙ k in
      rw aligned (
        >>=-done (on_cipher (transform_final update x (length x)))
          (strip s.padding_mode s.cipher.block_size output (length x))
          (on_cipher-transform_final update x (length x) s r (omega arith) l)
        ∙ rw (whole, unpad_lem b s.padding_mode s.cipher.block_size n some_bytes e) refl)

  decrypt_final_lem :
      (input : List ℕ) (s : CryptoTransform Ctx) (n : ℕ)
      → let x = pending s.heldover_cipher input in
        let b = (update s.cipher.ctx x).0 in
        IsReady update s
        → depadding_required s.padding_mode ≡ true
        → length input % s.cipher.block_size ≡ 0
        → length x % s.cipher.block_size ≡ 0
        → length b ≡ length x
        → 0 < length b
        → get_padding_length b s.padding_mode s.cipher.block_size ≡ ok (pos n)
        → n ≤ length b
        → n ≤ length input + s.cipher.block_size
        → decrypt_final update input s ≡ done (take n b) (holding none (advance update x s))
  unfolding decrypt_final
  decrypt_final_lem input s n r m k l sized some_bytes e le room =
      let x = pending s.heldover_cipher input in
      let b = (update s.cipher.ctx x).0 in
      let rented = alloc (length input + s.cipher.block_size) in
      let long : length (take n b) ≡ n = omega (arith, length-take n b) in
      let space = length-alloc (length input + s.cipher.block_size) in
      rw m (
        >>=-done (decrypt_final_core update input rented) (λ (w, o). pure (front o w))
          (decrypt_final_core_lem input rented s n r k l sized some_bytes e)
        ∙ ap (λ o. done o (holding none (advance update x s)))
            (ap (λ i. take i (blit rented 0 (take n b))) (sym long)
              ∙ take-blit rented (take n b) (omega arith)))

  -- With nothing held over, in the words of the bytes `b` that the cipher gives.
  decrypt_final_fresh :
      (input b : List ℕ) (s : CryptoTransform Ctx) (n : ℕ)
      → s.heldover_cipher ≡ none
      → (update s.cipher.ctx input).0 ≡ b
      → IsReady update s
      → depadding_required s.padding_mode ≡ true
      → length input % s.cipher.block_size ≡ 0
      → length input ≡ length b
      → 0 < length b
      → get_padding_length b s.padding_mode s.cipher.block_size ≡ ok (pos n)
      → n ≤ length b
      → (t : CryptoTransform Ctx) × (decrypt_final update input s ≡ done (take n b) t)
  decrypt_final_fresh input b s n fresh given r m aligned sized some_bytes e le =
      let x = pending s.heldover_cipher input in
      let same : x ≡ input = ap (λ h. pending h input) fresh in
      let bytes : (update s.cipher.ctx x).0 ≡ b =
        ap (λ y. (update s.cipher.ctx y).0) same ∙ given in
      let t = holding none (advance update x s) in
      (
        t,
        decrypt_final_lem input s n r m aligned
              (ap (λ y. length y % s.cipher.block_size) same ∙ aligned)
              (ap length bytes ∙ sym sized ∙ sym (ap length same))
              (subst (λ y. 0 < length y) (sym bytes) some_bytes)
              (subst (λ y. get_padding_length y s.padding_mode s.cipher.block_size ≡ ok (pos n))
                (sym bytes) e)
              (subst (λ y. n ≤ length y) (sym bytes) le) (omega (arith, sized))
            ∙ ap (λ y. done (take n y) t) bytes,
      )

  -- What `encrypt_final` does with the cipher's bytes.
  abbrev seal : ℕ → List ℕ → List ℕ → M Ctx (List ℕ)
  seal padded buffer bytes = do
    throw_if (not (padded == length bytes)) assertion_failed
    throw_if (not (length bytes == length buffer)) assertion_failed
    pure (blit buffer 0 bytes)

  encrypt_final_lem :
      (random : ℕ → List ℕ) (message buffer : List ℕ) (s : CryptoTransform Ctx) (n : ℕ)
      → let c = (update s.cipher.ctx (take n buffer)).0 in
        IsReady update s
        → get_ciphertext_length (length message) s.cipher.padding_size s.padding_mode ≡ ok n
        → pad_block random message (alloc n) s.cipher.padding_size s.padding_mode ≡ ok (n, buffer)
        → length buffer ≡ n
        → n % s.cipher.block_size ≡ 0
        → length c ≡ n
        → encrypt_final update random message s ≡ done c (advance update (take n buffer) s)
  unfolding encrypt_final
  encrypt_final_lem random message buffer s n r sized padded long aligned same =
      let c = (update s.cipher.ctx (take n buffer)).0 in
      let taken : length (take n buffer) ≡ n = omega (arith, length-take n buffer) in
      let whole : length (take n buffer) % s.cipher.block_size ≡ 0 =
        ap (λ k. k % s.cipher.block_size) taken ∙ aligned in
      let same_padded : (n == length c) ≡ true = ground arith in
      let same_buffer : (length c == length buffer) ≡ true = ground arith in
      rw (sized, padded)
        (>>=-done (on_cipher (transform_final update (take n buffer) (length buffer)))
            (seal n buffer)
            (on_cipher-transform_final update (take n buffer) (length buffer) s r (omega arith)
              whole)
          ∙ rw (same_padded, same_buffer)
              (ap (λ b. done b (advance update (take n buffer) s))
                (blit_whole buffer c (omega arith))))

-- A message with its padding fills whole blocks.
padded-aligned : (n size : ℕ) → 0 < size → (n + pad_bytes n size) % size ≡ 0
padded-aligned n size h =
    ap (λ k. k % size) (sym (whole_blocks_add n size h))
    ∙ add-mod_right (n / size * size) size
    ∙ mul-mod_left (n / size) size

padded_length :
    (n size : ℕ) (mode : PaddingMode)
    → 0 < size
    → (mode ≡ pkcs7) ⊎ (mode ≡ iso10126)
    → (get_ciphertext_length n size mode ≡ ok (n + pad_bytes n size))
      × (depadding_required mode ≡ true)
unfolding get_ciphertext_length depadding_required
padded_length n size mode h (inl e) = rw e (ap ok (whole_blocks_add n size h), refl)
padded_length n size mode h (inr e) = rw e (ap ok (whole_blocks_add n size h), refl)

-- The round trip: what the encryptor's transformFinalBlock makes of any message, the decryptor's,
-- which has held nothing over, turns back into that message; neither ends with an error. For PKCS7
-- and ISO10126, blocks of 1 to 255 bytes, and ciphers that give a byte for a byte on whole blocks
-- and undo each other.
pub decrypt_final-encrypt_final :
    {Ctx Dtx : Type 0} (cipher : Ctx → List ℕ → List ℕ × Ctx)
    (decipher : Dtx → List ℕ → List ℕ × Dtx) (random : ℕ → List ℕ) (message : List ℕ)
    (e : CryptoTransform Ctx) (d : CryptoTransform Dtx)
    → Blockwise cipher e.cipher.block_size
    → Blockwise decipher e.cipher.block_size
    → Undoes decipher cipher e.cipher.block_size d.cipher.ctx e.cipher.ctx
    → IsReady cipher e
    → IsReady decipher d
    → d.cipher.block_size ≡ e.cipher.block_size
    → e.cipher.block_size < 256
    → (e.padding_mode ≡ pkcs7) ⊎ (e.padding_mode ≡ iso10126)
    → d.padding_mode ≡ e.padding_mode
    → d.heldover_cipher ≡ none
    → (ciphertext : List ℕ) × (e' : CryptoTransform Ctx) × (d' : CryptoTransform Dtx)
      × (encrypt_final cipher random message e ≡ done ciphertext e')
      × (decrypt_final decipher ciphertext d ≡ done message d')
decrypt_final-encrypt_final cipher decipher random message e d be bd undoes re rd same_size small
      mode same_mode fresh =
    let size = e.cipher.block_size in
    let n = length message + pad_bytes (length message) size in
    let (ciphertext_length, depadding) =
      padded_length (length message) size e.padding_mode re.size_pos mode in
    let aligned : n % size ≡ 0 = padded-aligned (length message) size re.size_pos in
    let room = length-alloc n in
    let (buffer, padded, unpadded, kept, long) =
      get_padding_length-pad_block random message (alloc n) size e.padding_mode mode re.size_pos
        small (omega arith) in
    let taken : length (take n buffer) ≡ n = omega (arith, length-take n buffer) in
    let whole : length (take n buffer) % size ≡ 0 = ap (λ k. k % size) taken ∙ aligned in
    let c = (cipher e.cipher.ctx (take n buffer)).0 in
    let same : length c ≡ n = be.sized e.cipher.ctx (take n buffer) whole ∙ taken in
    let encrypted : encrypt_final cipher random message e
        ≡ done c (advance cipher (take n buffer) e) =
      encrypt_final_lem cipher random message buffer e n re
        (subst (λ p. get_ciphertext_length (length message) p e.padding_mode ≡ ok n)
          (sym re.same_size) ciphertext_length)
        (subst (λ p. pad_block random message (alloc n) p e.padding_mode ≡ ok (n, buffer))
          (sym re.same_size) padded)
        (omega arith) aligned same in
    let undone : (decipher d.cipher.ctx c).0 ≡ take n buffer = undoes (take n buffer) whole in
    let (d', decrypted) =
      decrypt_final_fresh decipher c (take n buffer) d (length message) fresh undone rd
        (subst (λ m. depadding_required m ≡ true) (sym same_mode) depadding)
        (ap (λ b. length c % b) same_size ∙ ap (λ k. k % size) same ∙ aligned) (same ∙ sym taken)
        (omega (arith, taken, mod-lt (length message) re.size_pos))
        (subst
          (λ m.
            get_padding_length (take n buffer) m d.cipher.block_size ≡ ok (pos (length message)))
          (sym same_mode)
          (subst
            (λ p. get_padding_length (take n buffer) e.padding_mode p ≡ ok (pos (length message)))
            (sym same_size) unpadded))
        (omega arith) in
    (
      c,
      advance cipher (take n buffer) e,
      d',
      encrypted,
      decrypted ∙ ap (λ z. done z d') (take-take (length message) n buffer (omega arith) ∙ kept),
    )
