-- ===== src/Gateway/PortAllocator.antt =====
-- crates/gateway/src/port_allocator.rs: threads that allocate ports from one counter. Another thread
-- may run between the load and the compare-and-exchange.
pub mod Unique
mod Tests
use openstack.Prelude.{ℕ, ◌+◌, ◌%◌, ◌^◌, ◌≡◌, Option, none, some, ltb, eqb, if◌then◌else◌}

abbrev pub external_service_ports_start : ℕ
external_service_ports_start = 4510

abbrev pub external_service_ports_end : ℕ
external_service_ports_end = 4560

-- Where a call of `allocate_port` stands: before the load, before the exchange with the value that
-- it has loaded, or behind the return.
pub data Place : Type 0 where
  load : Place
  exchange : ℕ → Place
  returned : Option ℕ → Place

-- One step of a call: `NEXT_PORT` and the place behind it, if the call has not returned. The sum
-- wraps round at 2 ^ 16.
unfoldable pub advance : ℕ → Place → Option (ℕ × Place)
advance next_port load =
    if ltb external_service_ports_end next_port
    then some (next_port, returned none)
    else some (next_port, exchange next_port)
advance next_port (exchange current) =
    if eqb next_port current
    then some ((current + 1) % 2 ^ 16, returned (some current))
    else some (next_port, load)
advance next_port (returned port) = none

pub record System : Type 0 where
  pub next_port : ℕ
  pub threads : ℕ → Place

-- The static's first value, and every call at its start.
abbrev pub initial : System
initial = record { next_port = external_service_ports_start; threads = λ t. load }

abbrev pub move_to : ℕ → Place → (ℕ → Place) → ℕ → Place
move_to thread place threads t = if eqb t thread then place else threads t

pub data Step (s : System) (r : System) : Type 0 where
  step :
      (thread next : ℕ) (place : Place)
      → advance s.next_port (s.threads thread) ≡ some (next, place)
      → r ≡ record { next_port = next; threads = move_to thread place s.threads }
      → Step s r

pub data Run (s : System) : System → Type 0 where
  here : Run s s
  then_step : {r t : System} → Run s r → Step r t → Run s t
