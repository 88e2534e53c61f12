-- ===== src/Pregeneration.antt =====
-- havocforge/pregeneration: items that wait in Redis before they are asked for.
pub mod Worker
pub mod Cache
