-- ===== src/Primitives.antt =====
-- packages/extensions.primitives/src: the segments of strings.
pub mod StringSegment
mod Tests
