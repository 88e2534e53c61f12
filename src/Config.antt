-- ===== src/Config.antt =====
-- havocforge/config: defaults, overrides, and the values that the program reads.
pub mod Tree
pub mod Manager
pub mod Access
pub mod Path
