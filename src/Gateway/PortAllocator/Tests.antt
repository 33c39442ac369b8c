-- ===== src/Gateway/PortAllocator/Tests.antt =====
-- Two calls in parallel: the second loads before the first exchanges, and has to retry.
use openstack.Prelude.{ℕ, ◌≤◌, ◌<◌, ◌≡◌, refl, some, none}
use openstack.Gateway.PortAllocator.{
  external_service_ports_start, external_service_ports_end, advance, returned, System, initial, Run,
  here, then_step, step,
}
use openstack.Gateway.PortAllocator.Unique.{allocate_port_unique}

-- Each of two calls at its place, all others at their start.
two_calls : (r : System) × Run initial r
unfolding advance
two_calls = (
  _,
  then_step
      (then_step
        (then_step (then_step (then_step here (step 0 _ _ refl refl)) (step 1 _ _ refl refl))
          (step 0 _ _ refl refl))
        (step 1 _ _ refl refl))
      (step 1 _ _ refl refl),
)

allocate_port_unique_example :
    ((t u p : ℕ)
      → two_calls.0.threads t ≡ returned (some p)
      → two_calls.0.threads u ≡ returned (some p)
      → t ≡ u)
    × ((t p : ℕ)
        → two_calls.0.threads t ≡ returned (some p)
        → (external_service_ports_start ≤ p) × (p ≤ external_service_ports_end))
    × ((t : ℕ)
        → two_calls.0.threads t ≡ returned none
        → external_service_ports_end < two_calls.0.next_port)
allocate_port_unique_example = allocate_port_unique two_calls.0 two_calls.1
