-- ===== src/Cryptography.antt =====
-- packages/cryptography: block padding and the block transforms that use it.
pub mod SymmetricPadding
pub mod OpenSslCipher
pub mod CryptoTransform
mod Tests
