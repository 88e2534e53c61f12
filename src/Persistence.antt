-- ===== src/Persistence.antt =====
-- havocforge/persistence: what moves stored datasets.
pub mod BatchSync
pub mod Storage
