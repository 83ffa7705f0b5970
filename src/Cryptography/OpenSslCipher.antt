-- ===== src/Cryptography/OpenSslCipher.antt =====
-- packages/cryptography/src/OpenSslCipher.ts, OpenSslCipherLite.ts and BasicSymmetricCipher.ts. What
-- Node's Cipher and Decipher objects do, with automatic padding off, is a parameter: `update` takes
-- the object's state and some bytes, and gives bytes and the next state.
use yohira.Common.{
  ℕ, ◌%◌, Bool, true, false, not, List, ltb, leb, ◌==◌, length, Action, ◌>>=◌, ◌>>◌, throw_if, pure,
  done,
}
use yohira.Cryptography.SymmetricPadding.{CryptoError, assertion_failed, reused_without_reset}

-- The object, with its OpenSslCipherLite in `ctx` and `is_finalized`. `iv` and the key are in `ctx`.
pub record Cipher (Ctx : Type 0) : Type 0 where
  pub ctx : Ctx
  pub is_finalized : Bool
  pub block_size : ℕ
  pub padding_size : ℕ

module _ {Ctx : Type 0} (update : Ctx → List ℕ → List ℕ × Ctx) where
  -- `cipherUpdate`: the bytes that the caller finds in `output`.
  unfoldable pub cipher_update : List ℕ → Action CryptoError (Cipher Ctx) (List ℕ)
  cipher_update input c =
      let (bytes, ctx) = update c.ctx input in done bytes (record c { ctx = ctx })

  -- OpenSslCipherLite's `transform`, behind the tests of OpenSslCipher's.
  unfoldable pub transform : List ℕ → Action CryptoError (Cipher Ctx) (List ℕ)
  unfolding cipher_update
  transform input = do
    throw_if (leb (length input) 0) assertion_failed
    λ c. throw_if (not (length input % c.padding_size == 0)) assertion_failed c
    λ c. throw_if c.is_finalized reused_without_reset c
    cipher_update input

  -- `reset` only clears the flag: the state of Node's object stays.
  unfoldable pub reset : Action CryptoError (Cipher Ctx) (Unit {0})
  reset c = done tt (record c { is_finalized = false })

  -- `transformFinal`; `room` is the length of the output buffer.
  unfoldable pub transform_final : List ℕ → ℕ → Action CryptoError (Cipher Ctx) (List ℕ)
  unfolding cipher_update reset
  transform_final input room = do
    λ c. throw_if (not (length input % c.padding_size == 0)) assertion_failed c
    throw_if (ltb room (length input)) assertion_failed
    λ c. throw_if c.is_finalized reused_without_reset c
    λ c. done tt (record c { is_finalized = true })
    bytes ← cipher_update input
    reset
    pure bytes
