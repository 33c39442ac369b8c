-- ===== src/SecretsManager.antt =====
-- crates/services/secretsmanager: secrets and their versions.
pub mod Store
pub mod Provider
pub mod Management
mod Tests
