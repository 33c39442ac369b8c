-- ===== src/Ssm.antt =====
-- crates/services/ssm: the parameter store.
pub mod Store
pub mod Requests
pub mod Provider
mod Tests
