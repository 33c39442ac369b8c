-- ===== src/State.antt =====
-- crates/state: the stores of each account and region.
pub mod Scoping
pub mod Bundle
