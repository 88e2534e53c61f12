-- ===== src/Tests.antt =====
-- Tests, and the theorems at concrete inputs.
mod Drift
mod Server
mod Rng
mod Manager
mod Registry
mod Schema
mod Ops
mod UserState
mod Config
mod Pregeneration
mod DriftOps
mod Paths
mod SchemaDrift
mod ListShuffle
mod Faults
mod Stream
mod Specs
mod Persistence
mod Latency
