-- ===== src/Lock.antt =====
-- internal/domain/lock: the lockfile, its packages and their hashes, and the resolution of versions.
pub mod Integrity
pub mod Package
pub mod Machine
pub mod Lockfile
pub mod Resolver
mod Examples
