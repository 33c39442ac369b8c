-- ===== src/Framework/Lifecycle.antt =====
-- crates/service-framework/src/lifecycle.rs: the states of a service.
use openstack.Prelude.{ℕ, String}

pub data ServiceState : Type 0 where
  available : ServiceState
  starting : ServiceState
  running : ServiceState
  stopping : ServiceState
  stopped : ServiceState
  failed : String → ServiceState

unfoldable pub to_u8 : ServiceState → ℕ
to_u8 available = 0
to_u8 starting = 1
to_u8 running = 2
to_u8 stopping = 3
to_u8 stopped = 4
to_u8 (failed msg) = 5

unfoldable pub as_str : ServiceState → String
as_str available = "available"
as_str starting = "starting"
as_str running = "running"
as_str stopping = "stopping"
as_str stopped = "stopped"
as_str (failed msg) = "error"
