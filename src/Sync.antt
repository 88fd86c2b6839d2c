-- ===== src/Sync.antt =====
-- internal/domain/sync: causal ordering and merging of lockfile states between machines.
pub mod VersionVector
pub mod Provenance
pub mod Conflict
pub mod Detector
pub mod Resolver
pub mod Metadata
pub mod State
pub mod Building
pub mod Engine
pub mod Merger
pub mod Examples
