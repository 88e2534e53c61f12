-- ===== src/Schema.antt =====
-- havocforge/schema: the registry of schema documents.
pub mod Registry
pub mod Contracts
pub mod Lineage
pub mod Reach
pub mod Isolation
pub mod Specs
