-- ===== src/Framework.antt =====
-- crates/service-framework: what the providers and the manager share.
pub mod Json
pub mod Traits
pub mod Lifecycle
pub mod Container
pub mod Service
