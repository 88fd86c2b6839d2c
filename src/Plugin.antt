-- ===== src/Plugin.antt =====
-- internal/domain/plugin/resolver.go: the plugins that a plugin needs, and the order in which they
-- are installed.
pub mod Constraint
pub mod Order
pub mod Resolver
mod Examples
