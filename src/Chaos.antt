-- ===== src/Chaos.antt =====
-- havocforge/chaos: fault injection.
pub mod Layer
pub mod Drift
pub mod Op
pub mod Manager
pub mod Request
pub mod Temporal
pub mod Burst
pub mod LateArrival
pub mod DriftOps
pub mod SchemaDrift
pub mod Nodes
pub mod ListShuffle
pub mod Latency
pub mod Faults
pub mod DataDrift
