-- ===== src/Gateway.antt =====
-- crates/gateway: the front of the program.
pub mod PortAllocator
