-- ===== src/Cryptography/Tests.antt =====
-- The paddings and the transforms on concrete blocks, with a cipher that complements every byte.
use yohira.Common.{
  ℕ, ◌-◌, ◌≡◌, refl, ap, ap₂, false, List, [], ◌∷◌, ◌++◌, map, ltb, if◌then◌else◌, length, take,
  get_or, inl, inr, Option, none, done, ok, pos, alloc, replicate, arith,
}
use yohira.Cryptography.SymmetricPadding.{
  pkcs7, iso10126, zeros, depadding_required, get_ciphertext_length, pad_block, get_padding_length,
}
use yohira.Cryptography.SymmetricPadding.Sizes.{Sized, pad_block-Sized}
use yohira.Cryptography.SymmetricPadding.RoundTrip.{
  get_padding_length-pad_block, pad_block-zeros_keeps,
}
use yohira.Cryptography.CryptoTransform.{CryptoTransform, encrypt_final, decrypt_final, pending}
use yohira.Cryptography.CryptoTransform.Blockwise.{Blockwise}
use yohira.Cryptography.CryptoTransform.Streaming.{IsHeld, IsReady, holding}
use yohira.Cryptography.CryptoTransform.Chunks.{transform_chunks, transform_chunks-update}
use yohira.Cryptography.CryptoTransform.Final.{decrypt_final-encrypt_final}

abbrev random : ℕ → List ℕ
random n = replicate n 77

abbrev block : List ℕ
block = 1 ∷ 2 ∷ 3 ∷ 4 ∷ 5 ∷ []

abbrev complement : ℕ → ℕ
complement b = if ltb b 256 then 255 - b else b

complement-complement : (b : ℕ) → complement (complement b) ≡ b
complement-complement b = ground arith

abbrev update : ℕ → List ℕ → List ℕ × ℕ
update key x = (map complement x, key)

length-map : (x : List ℕ) → length (map complement x) ≡ length x
length-map [] = refl
length-map (b ∷ x) = omega (arith, length-map x)

map-append : (x y : List ℕ) → map complement (x ++ y) ≡ map complement x ++ map complement y
map-append [] y = refl
map-append (b ∷ x) y = ap (◌∷◌ (complement b)) (map-append x y)

map-map : (x : List ℕ) → map complement (map complement x) ≡ x
map-map [] = refl
map-map (b ∷ x) = ap₂ ◌∷◌ (complement-complement b) (map-map x)

update-Blockwise : Blockwise update 4
update-Blockwise = record {
  nothing = λ c. refl;
  sized = λ c x h. length-map x;
  joined = λ c x y h k. ap (λ z. (z, c)) (map-append x y);
}

abbrev transform : CryptoTransform ℕ
transform = record {
  cipher = record { ctx = 9; is_finalized = false; block_size = 4; padding_size = 4 };
  padding_mode = pkcs7;
  heldover_cipher = none;
}

transform-IsReady : IsReady update transform
transform-IsReady = record { live = refl; same_size = refl; size_pos = omega arith }

pad_block-Sized_example :
    Sized (alloc 10) (get_ciphertext_length 5 4 pkcs7) (pad_block random block (alloc 10) 4 pkcs7)
pad_block-Sized_example = pad_block-Sized random block (alloc 10) 4 pkcs7 (omega arith)

get_padding_length-pad_block_example :
    (d : List ℕ) × (pad_block random block (alloc 10) 4 iso10126 ≡ ok (8, d))
    × (get_padding_length (take 8 d) iso10126 4 ≡ ok (pos 5))
    × (take 5 d ≡ block)
    × (length d ≡ 10)
get_padding_length-pad_block_example =
    get_padding_length-pad_block random block (alloc 10) 4 iso10126 (inr refl) (omega arith)
      (omega arith) (omega arith)

pad_block-zeros_keeps_example :
    (n : ℕ) × (d : List ℕ) × (pad_block random block (replicate 8 66) 4 zeros ≡ ok (n, d))
    × (get_or d 6 0 ≡ 66)
pad_block-zeros_keeps_example =
    pad_block-zeros_keeps random block (replicate 8 66) 4 6 (omega arith) (omega arith)
      (omega arith) (omega arith)

transform_chunks-update_example :
    (out : List ℕ) × (left : Option (List ℕ)) × (t : CryptoTransform ℕ) × (transform_chunks update
        ((1 ∷ 2 ∷ 3 ∷ 4 ∷ []) ∷ (5 ∷ 6 ∷ 7 ∷ 8 ∷ []) ∷ [])
        transform
      ≡ done out (holding left t))
    × IsReady update t
    × IsHeld 4 left
    × (out ++ (update t.cipher.ctx (pending left (0 ∷ 0 ∷ 0 ∷ 0 ∷ []))).0
        ≡ 254 ∷ 253 ∷ 252 ∷ 251 ∷ 250 ∷ 249 ∷ 248 ∷ 247 ∷ 255 ∷ 255 ∷ 255 ∷ 255 ∷ [])
unfolding depadding_required
transform_chunks-update_example =
    transform_chunks-update update ((1 ∷ 2 ∷ 3 ∷ 4 ∷ []) ∷ (5 ∷ 6 ∷ 7 ∷ 8 ∷ []) ∷ [])
      (0 ∷ 0 ∷ 0 ∷ 0 ∷ []) none transform update-Blockwise transform-IsReady refl tt
      ((omega arith, refl), ((omega arith, refl), tt)) refl

decrypt_final-encrypt_final_example :
    (ciphertext : List ℕ) × (e d : CryptoTransform ℕ) × (encrypt_final update random block transform
      ≡ done ciphertext e)
    × (decrypt_final update ciphertext transform ≡ done block d)
decrypt_final-encrypt_final_example =
    decrypt_final-encrypt_final update update random block transform transform update-Blockwise
      update-Blockwise (λ x h. map-map x) transform-IsReady transform-IsReady refl (omega arith)
      (inl refl) refl refl
