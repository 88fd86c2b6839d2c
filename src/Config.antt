-- ===== src/Config.antt =====
-- internal/domain/config: the layers of a configuration, and their merge.
pub mod Layer
pub mod Merger
mod Examples
