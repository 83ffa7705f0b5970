-- ===== src/Cryptography/CryptoTransform/Chunks.antt =====
-- UniversalCryptoTransform.transformBlock over the decryptor's core, called once for each chunk of a
-- ciphertext.
use yohira.Common.{
  ℕ, ◌+◌, ◌-◌, ◌%◌, ◌≤◌, ◌<◌, ◌≡◌, refl, sym, ap, ap₂, ◌∙◌, true, false, List, [], ◌∷◌, ◌++◌,
  append_assoc, All, length, take, length-append, length-drop, take-append-drop, Option, none, some,
  done, ◌>>=◌, ◌>>◌, >>=-done, throw_if, pure, arith, slice, alloc, blit, slice_whole, take-blit,
  length-alloc, ltb, leb, ◌==◌, not,
}
use native.Mathlib.Nat.{add-mod, add-mod_left, zero-mod}
use yohira.Cryptography.SymmetricPadding.{
  assertion_failed, bad_buffer, bad_count, bad_offset, depadding_required,
}
use yohira.Cryptography.CryptoTransform.{
  CryptoTransform, M, decrypt_block, pending, transform_block,
}
use yohira.Cryptography.CryptoTransform.Blockwise.{Blockwise}
use yohira.Cryptography.CryptoTransform.Streaming.{
  IsHeld, IsReady, advance, advance-IsReady, decrypt_block_lem, holding, kept, kept-aligned,
  kept_size, last_block,
}

-- A chunk that `transformBlock` accepts.
abbrev pub IsChunk : ℕ → List ℕ → Type 0
IsChunk block x = (0 < length x) × (length x % block ≡ 0)

-- The chunks, one after the other, and what follows them.
abbrev pub concat : List (List ℕ) → List ℕ → List ℕ
concat [] rest = rest
concat (x ∷ xs) rest = x ++ concat xs rest

append-aligned :
    (block : ℕ) (x y : List ℕ)
    → length x ≡ block
    → length y % block ≡ 0
    → length (x ++ y) % block ≡ 0
append-aligned block x y h k =
    ap (λ n. n % block) (length-append x y ∙ ap (λ n. n + length y) h)
    ∙ add-mod_left block (length y)
    ∙ k

concat-aligned :
    (block : ℕ) (xs : List (List ℕ)) (rest : List ℕ)
    → All (IsChunk block) xs
    → length rest % block ≡ 0
    → length (concat xs rest) % block ≡ 0
concat-aligned block [] rest _ k = k
concat-aligned block (x ∷ xs) rest ((_, h), hs) k =
    ap (λ n. n % block) (length-append x (concat xs rest))
    ∙ add-mod (length x) (length (concat xs rest)) block
    ∙ ap₂ (λ a b. (a + b) % block) h (concat-aligned block xs rest hs k)
    ∙ zero-mod block

pending-aligned :
    (block : ℕ) (held : Option (List ℕ)) (x : List ℕ)
    → IsHeld block held
    → length x % block ≡ 0
    → length (pending held x) % block ≡ 0
pending-aligned block none x h k = k
pending-aligned block (some y) x h k = append-aligned block y x h k

pending-append :
    (held : Option (List ℕ)) (x y : List ℕ) → pending held (x ++ y) ≡ pending held x ++ y
pending-append none x y = refl
pending-append (some z) x y = sym (append_assoc z x y)

length-pending :
    (block : ℕ) (held : Option (List ℕ)) (x : List ℕ)
    → IsHeld block held
    → length (pending held x) ≤ block + length x
length-pending block none x h = omega arith
length-pending block (some y) x h = omega (arith, length-append y x)

module _ {Ctx : Type 0} where
  -- What `transformBlock` does behind its tests of the count.
  abbrev move : (List ℕ → List ℕ → M Ctx (ℕ × List ℕ)) → List ℕ → List ℕ → M Ctx (ℕ × List ℕ)
  move core x output = do
    throw_if (ltb (length x - 0) (length x)) bad_buffer
    throw_if (ltb (length output) 0) bad_offset
    throw_if (ltb (length output - 0) (length x)) bad_buffer
    (written, rest) ← core (slice x 0 (0 + length x)) output
    throw_if (ltb (length x) written) assertion_failed
    pure (written, rest)

  transform_block_whole :
      (core : List ℕ → List ℕ → M Ctx (ℕ × List ℕ)) (x output out : List ℕ) (n' : ℕ)
      (s t : CryptoTransform Ctx)
      → IsChunk s.cipher.block_size x
      → length x ≤ length output
      → n' ≤ length x
      → core x output s ≡ done (n', out) t
      → transform_block core x 0 (length x) output 0 s ≡ done (n', out) t
  unfolding transform_block
  transform_block_whole core x output out n' s t (p, a) k l e =
      let n = length x in
      let no_offset : ltb n 0 ≡ false = ground arith in
      let some_bytes : leb n 0 ≡ false = ground arith in
      let enough : ltb (n - 0) n ≡ false = ground arith in
      let any : ltb (length output) 0 ≡ false = ground arith in
      let fits : ltb (length output - 0) n ≡ false = ground arith in
      let bounded : ltb n n' ≡ false = ground arith in
      let guarded : throw_if (not (n % s.cipher.block_size == 0)) bad_count s ≡ done tt s =
        rw a refl in
      rw (no_offset, some_bytes)
        (>>=-done (λ s. throw_if (not (n % s.cipher.block_size == 0)) bad_count s)
            (λ _. move core x output) guarded
          ∙ rw (enough, any, fits, slice_whole x)
              (>>=-done (core x output)
                  (λ (w, r). throw_if (ltb (length x) w) assertion_failed >> pure (w, r)) e
                ∙ rw bounded refl))

module _ {Ctx : Type 0} (update : Ctx → List ℕ → List ℕ × Ctx) where
  -- `transformBlock` on each chunk, with an output as long; the outputs, one after the other.
  abbrev pub transform_chunks : List (List ℕ) → M Ctx (List ℕ)
  transform_chunks [] s = done [] s
  transform_chunks (x ∷ xs) s =
      (do
        (n, out) ← transform_block (decrypt_block update) x 0 (length x) (alloc (length x)) 0
        rest ← transform_chunks xs
        pure (take n out ++ rest))
        s

  transform_chunk :
      (x : List ℕ) (held : Option (List ℕ)) (s : CryptoTransform Ctx)
      → Blockwise update s.cipher.block_size
      → IsReady update s
      → depadding_required s.padding_mode ≡ true
      → IsHeld s.cipher.block_size held
      → IsChunk s.cipher.block_size x
      → let y = pending held (kept x s.cipher.block_size) in
        let bytes = (update s.cipher.ctx y).0 in
        (transform_block (decrypt_block update) x 0 (length x) (alloc (length x)) 0 (holding held s)
          ≡ done
              (length bytes, blit (alloc (length x)) 0 bytes)
              (holding (some (last_block x s.cipher.block_size)) (advance update y s)))
        × (take (length bytes) (blit (alloc (length x)) 0 bytes) ≡ bytes)
  transform_chunk x held s b r m h (p, a) =
      let block = s.cipher.block_size in
      let y = pending held (kept x block) in
      let bytes = (update s.cipher.ctx y).0 in
      let (le, aligned) = kept-aligned (length x) block p r.size_pos a in
      let kept_aligned = ap (λ n. n % block) (kept_size x block) ∙ aligned in
      let sized : length bytes ≡ length y =
        b.sized s.cipher.ctx y (pending-aligned block held (kept x block) h kept_aligned) in
      let fits : length bytes ≤ length x =
        omega (arith, length-pending block held (kept x block) h, kept_size x block) in
      let room = length-alloc (length x) in
      (
        transform_block_whole (decrypt_block update) x (alloc (length x)) _ (length bytes)
            (holding held s) _ (p, a) (omega arith) fits
            (decrypt_block_lem update x (alloc (length x)) held s b r m h p a),
        take-blit (alloc (length x)) bytes (omega arith),
      )

  last_block-IsHeld :
      (x : List ℕ) (block : ℕ) → block ≤ length x → length (last_block x block) ≡ block
  last_block-IsHeld x block h = omega (arith, length-drop (length x - block) x)

  -- Deciphering in chunks loses and repeats nothing. In a mode with padding, for a decryptor between
  -- calls, over a cipher that works block by block: transformBlock on chunks of whole blocks,
  -- however they cut the ciphertext, ends without an error; its outputs, one after the other, then
  -- what the cipher makes of the held-over block and of whole blocks that are still to come, are what
  -- it makes of the whole ciphertext at once.
  pub transform_chunks-update :
      (xs : List (List ℕ)) (rest : List ℕ) (held : Option (List ℕ)) (s : CryptoTransform Ctx)
      → Blockwise update s.cipher.block_size
      → IsReady update s
      → depadding_required s.padding_mode ≡ true
      → IsHeld s.cipher.block_size held
      → All (IsChunk s.cipher.block_size) xs
      → length rest % s.cipher.block_size ≡ 0
      → (out : List ℕ) × (left : Option (List ℕ)) × (t : CryptoTransform Ctx) × (transform_chunks xs
            (holding held s)
          ≡ done out (holding left t))
        × IsReady update t
        × IsHeld s.cipher.block_size left
        × (out ++ (update t.cipher.ctx (pending left rest)).0
            ≡ (update s.cipher.ctx (pending held (concat xs rest))).0)
  transform_chunks-update [] rest held s b r m h _ _ = ([], held, s, refl, r, h, refl)
  transform_chunks-update (x ∷ xs) rest held s b r m h ((p, a), all) q =
      let block = s.cipher.block_size in
      let y = pending held (kept x block) in
      let last = last_block x block in
      let bytes = (update s.cipher.ctx y).0 in
      let (le, aligned) = kept-aligned (length x) block p r.size_pos a in
      let kept_aligned = ap (λ n. n % block) (kept_size x block) ∙ aligned in
      let (call, taken) = transform_chunk x held s b r m h (p, a) in
      let s' = advance update y s in
      let (out, left, t, ran, ready, kept_left, same) =
        transform_chunks-update xs rest (some last) s' b (advance-IsReady update y s r) m
          (last_block-IsHeld x block le) all q in
      let run : transform_chunks (x ∷ xs) (holding held s) ≡ done (bytes ++ out) (holding left t) =
        >>=-done (transform_block (decrypt_block update) x 0 (length x) (alloc (length x)) 0)
          (λ (n, o). transform_chunks xs >>= λ z. pure (take n o ++ z)) call
        ∙ >>=-done (transform_chunks xs)
            (λ z. pure (take (length bytes) (blit (alloc (length x)) 0 bytes) ++ z)) ran
        ∙ ap (λ z. done (z ++ out) (holding left t)) taken in
      let cut : y ++ (last ++ concat xs rest) ≡ pending held (x ++ concat xs rest) =
        sym (pending-append held (kept x block) (last ++ concat xs rest))
        ∙ ap (pending held) (
            sym (append_assoc (kept x block) last (concat xs rest))
            ∙ ap (λ z. z ++ concat xs rest) (take-append-drop (length x - block) x)) in
      let joined =
        b.joined s.cipher.ctx y (last ++ concat xs rest)
          (pending-aligned block held (kept x block) h kept_aligned)
          (append-aligned block last (concat xs rest) (last_block-IsHeld x block le)
            (concat-aligned block xs rest all q)) in
      let final = (update t.cipher.ctx (pending left rest)).0 in
      let join : (bytes ++ out) ++ final
          ≡ (update s.cipher.ctx (pending held (x ++ concat xs rest))).0 =
        append_assoc bytes out final
        ∙ ap (λ z. bytes ++ z) same
        ∙ ap (λ z. z.0) (sym joined)
        ∙ ap (λ z. (update s.cipher.ctx z).0) cut in
      (bytes ++ out, left, t, run, ready, kept_left, join)
