-- ===== src/DataProtection.antt =====
-- packages/data-protection: the choice of the key to protect with.
pub mod KeyResolver
mod Tests
