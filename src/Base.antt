-- ===== src/Base.antt =====
-- packages/base: streams and binary readers and writers.
pub mod MemoryStream
pub mod BinaryWriter
pub mod BinaryReader
pub mod RoundTrip
mod Tests
pub mod TimeSpan
