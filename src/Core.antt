-- ===== src/Core.antt =====
-- havocforge/registry.py and havocforge/core: what the components are looked up in.
pub mod Registry
