-- ===== src/Platforms.antt =====
-- The runtime's platform side (packages/debug80-runtime/src/platforms).
pub mod CycleClock
pub mod Laws
pub mod Tests
