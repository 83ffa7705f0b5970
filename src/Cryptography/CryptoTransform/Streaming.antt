-- ===== src/Cryptography/CryptoTransform/Streaming.antt =====
-- The decryptor and the encryptor over blockwise ciphers.
use yohira.Common.{
  ℕ, ◌+◌, ◌-◌, ◌%◌, ◌≤◌, ◌<◌, ◌≡◌, refl, sym, ap, ap₂, ◌∙◌, inl, inr, true, false, List, [], ◌∷◌,
  ◌++◌, length, take, drop, Option, none, some, done, ◌>>=◌, arith, ltb, length-alloc, ltb→lt,
  Bool-cases, length-take, length-append, >>=-done, ◌>>◌, throw_if, pure, not, ◌==◌, alloc, blit,
  blit_twice,
}
use native.Mathlib.Nat.{mod-eq_of_lt, mod_self, mod-eq-sub-mod}
use yohira.Cryptography.SymmetricPadding.{assertion_failed, depadding_required}
use yohira.Cryptography.OpenSslCipher.{transform, transform_final}
use yohira.Cryptography.CryptoTransform.{
  CryptoTransform, on_cipher, release, decrypt_rest, decrypt_block, hold_back, pending, M,
}
use yohira.Cryptography.CryptoTransform.Blockwise.{Blockwise}

abbrev pub IsHeld : ℕ → Option (List ℕ) → Type 0
IsHeld size none = Unit {0}
IsHeld size (some held) = length held ≡ size

-- The bytes of the input that a call decrypts: all but its last block.
abbrev pub kept : List ℕ → ℕ → List ℕ
kept input size = take (length input - size) input

abbrev pub last_block : List ℕ → ℕ → List ℕ
last_block input size = drop (length input - size) input

pub kept_size : (input : List ℕ) (size : ℕ) → length (kept input size) ≡ length input - size
kept_size input size = omega (arith, length-take (length input - size) input)

pub kept-aligned :
    (n size : ℕ) → 0 < n → 0 < size → n % size ≡ 0 → (size ≤ n) × ((n - size) % size ≡ 0)
kept-aligned n size h k l =
    let le : size ≤ n = elim (Bool-cases (ltb n size)) [
      | inl p ↦ omega (arith, mod-eq_of_lt (ltb→lt n size p))
      | inr p ↦ ground arith
    ] in
    (le, sym (mod-eq-sub-mod le) ∙ l)

module _ {Ctx : Type 0} where
  abbrev pub holding : Option (List ℕ) → CryptoTransform Ctx → CryptoTransform Ctx
  holding held s = record s { heldover_cipher = held }

module _ {Ctx : Type 0} (update : Ctx → List ℕ → List ℕ × Ctx) where
  abbrev pub advance : List ℕ → CryptoTransform Ctx → CryptoTransform Ctx
  advance x s = let c = s.cipher in record s { cipher = record c { ctx = (update c.ctx x).1 } }

  -- A cipher between calls, whose padding goes to whole blocks.
  pub record IsReady (s : CryptoTransform Ctx) : Type 0 where
    pub live : s.cipher.is_finalized ≡ false
    pub same_size : s.cipher.padding_size ≡ s.cipher.block_size
    pub size_pos : 0 < s.cipher.block_size

  on_cipher-transform :
      (x : List ℕ) (s : CryptoTransform Ctx)
      → IsReady s
      → 0 < length x
      → length x % s.cipher.block_size ≡ 0
      → on_cipher (transform update x) s ≡ done (update s.cipher.ctx x).0 (advance x s)
  unfolding transform
  on_cipher-transform x s r h k = ground (arith, r.same_size)

  pub on_cipher-transform_final :
      (x : List ℕ) (room : ℕ) (s : CryptoTransform Ctx)
      → IsReady s
      → length x ≤ room
      → length x % s.cipher.block_size ≡ 0
      → on_cipher (transform_final update x room) s ≡ done (update s.cipher.ctx x).0 (advance x s)
  unfolding transform_final
  on_cipher-transform_final x room s r h k = ground (arith, r.same_size)

  pub holding-IsReady :
      (held : Option (List ℕ)) (s : CryptoTransform Ctx) → IsReady s → IsReady (holding held s)
  holding-IsReady held s r = record {
    live = r.live;
    same_size = r.same_size;
    size_pos = r.size_pos;
  }

  pub advance-IsReady : (x : List ℕ) (s : CryptoTransform Ctx) → IsReady s → IsReady (advance x s)
  advance-IsReady x s r = record { live = r.live; same_size = r.same_size; size_pos = r.size_pos }

  pub decrypt_rest_lem :
      (x : List ℕ) (s : CryptoTransform Ctx)
      → Blockwise update s.cipher.block_size
      → IsReady s
      → length x % s.cipher.block_size ≡ 0
      → decrypt_rest update x s ≡ done (update s.cipher.ctx x).0 (advance x s)
  unfolding decrypt_rest
  decrypt_rest_lem [] s b r k = rw (b.nothing s.cipher.ctx) refl
  decrypt_rest_lem (y ∷ x) s b r k = on_cipher-transform (y ∷ x) s r (omega arith) k

  abbrev gather : List ℕ → List ℕ → List ℕ → M Ctx (ℕ × List ℕ)
  gather output first rest =
      pure (length first + length rest, blit (blit output 0 first) (length first) rest)

  abbrev checked : List ℕ → ℕ → List ℕ → List ℕ → M Ctx (ℕ × List ℕ)
  checked output block first ahead = do
    throw_if (not (length ahead % block == 0)) assertion_failed
    rest ← decrypt_rest update ahead
    gather output first rest

  -- What `decrypt_block` does behind the held-over block.
  abbrev finish : List ℕ → List ℕ → ℕ → List ℕ → M Ctx (ℕ × List ℕ)
  finish input output block first = do
    ahead ← hold_back input
    throw_if (not (length ahead % block == 0)) assertion_failed
    rest ← decrypt_rest update ahead
    gather output first rest

  gather_lem :
      (output first rest : List ℕ) (s : CryptoTransform Ctx)
      → gather output first rest s ≡ done (length (first ++ rest), blit output 0 (first ++ rest)) s
  gather_lem output first rest s =
      ap₂ (λ n d. done (n, d) s) (sym (length-append first rest)) (blit_twice output first rest)

  hold_back_lem :
      (input held : List ℕ) (block : ℕ) (s : CryptoTransform Ctx)
      → length held ≡ block
      → block ≤ length input
      → hold_back input (holding (some held) s)
        ≡ done (kept input block) (holding (some (last_block input block)) s)
  unfolding hold_back
  hold_back_lem input held block s h k =
      let not_short : ltb (length input) block ≡ false = ground arith in rw (h, not_short) refl

  finish_lem :
      (input output held : List ℕ) (block : ℕ) (first rest : List ℕ) (t u : CryptoTransform Ctx)
      → length held ≡ block
      → block ≤ length input
      → length (kept input block) % block ≡ 0
      → decrypt_rest update (kept input block) (holding (some (last_block input block)) t)
        ≡ done rest u
      → finish input output block first (holding (some held) t)
        ≡ done (length (first ++ rest), blit output 0 (first ++ rest)) u
  finish_lem input output held block first rest t u long h k e =
      >>=-done (hold_back input) (checked output block first)
        (hold_back_lem input held block t long h)
      ∙ rw k (
          >>=-done (decrypt_rest update (kept input block)) (gather output first) e
          ∙ gather_lem output first rest u)

  -- A call in a mode with padding decrypts the held-over block and all of the input but its last
  -- block, and holds that block over.
  pub decrypt_block_lem :
      (input output : List ℕ) (held : Option (List ℕ)) (s : CryptoTransform Ctx)
      → Blockwise update s.cipher.block_size
      → IsReady s
      → depadding_required s.padding_mode ≡ true
      → IsHeld s.cipher.block_size held
      → 0 < length input
      → length input % s.cipher.block_size ≡ 0
      → let x = pending held (kept input s.cipher.block_size) in
        decrypt_block update input output (holding held s)
        ≡ done
            (length (update s.cipher.ctx x).0, blit output 0 (update s.cipher.ctx x).0)
            (holding (some (last_block input s.cipher.block_size)) (advance x s))
  unfolding decrypt_block release
  decrypt_block_lem input output none s b r m h k l =
      let block = s.cipher.block_size in
      let (le, aligned) = kept-aligned (length input) block k r.size_pos l in
      let kept_aligned = ap (λ n. n % block) (kept_size input block) ∙ aligned in
      rw m (
        finish_lem input output (alloc block) block [] _ s _ (length-alloc block) le kept_aligned (
          decrypt_rest_lem (kept input block) (holding (some (last_block input block)) s) b
            (holding-IsReady _ s r) kept_aligned))
  decrypt_block_lem input output (some y) s b r m h k l =
      let block = s.cipher.block_size in
      let (le, aligned) = kept-aligned (length input) block k r.size_pos l in
      let kept_aligned = ap (λ n. n % block) (kept_size input block) ∙ aligned in
      let whole : length y % block ≡ 0 = rw h (mod_self block) in
      let s' = advance y s in
      rw m (
        >>=-done (on_cipher (transform update y)) (finish input output block) (
          on_cipher-transform y (holding (some y) s) (holding-IsReady _ s r) (rw h r.size_pos)
            whole)
        ∙ finish_lem input output y block _ _ s' _ h le kept_aligned (
            decrypt_rest_lem (kept input block) (holding (some (last_block input block)) s') b
              (holding-IsReady _ s' (advance-IsReady y s r)) kept_aligned)
        ∙ rw (b.joined s.cipher.ctx y (kept input block) whole kept_aligned) refl)
