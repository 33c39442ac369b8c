-- ===== src/Framework/Container.antt =====
-- crates/service-framework/src/container.rs: the container of a service and the calls on it, as
-- threads that share it. A thread is at one of the places between which other threads may run. A
-- section under the write lock of `state` is one step: the lock-free load in between would see what
-- it sees before the step. The duration of the last start is not kept.
pub mod Threads
mod Tests
use openstack.Prelude.{
  ℕ, ◌+◌, ◌%◌, ◌^◌, String, ◌++◌, Bool, true, false, Option, none, some, eqb, if◌then◌else◌,
}
use openstack.Framework.Lifecycle.{
  ServiceState, available, starting, running, stopping, stopped, failed,
}

pub record ServiceContainer : Type 0 where
  pub state : ServiceState
  pub atomic_state : ℕ
  -- the thread that holds the lock
  pub init_lock : Option ℕ
  pub startup_attempts : ℕ
  pub startup_wait_count : ℕ

-- `ServiceContainer::new`.
abbrev pub new : ServiceContainer
new = record {
  state = available;
  atomic_state = 0;
  init_lock = none;
  startup_attempts = 0;
  startup_wait_count = 0;
}

-- `fetch_add(1)` on a 64-bit counter.
abbrev pub count_up : ℕ → ℕ
count_up n = (n + 1) % 2 ^ 64

-- `Result<(), anyhow::Error>`, with the error's text.
pub data Result : Type 0 where
  ok : Result
  error : String → Result

-- Where a thread stands: in `ensure_running`, or in `stop`.
pub data Place : Type 0 where
  -- before the load of `atomic_state`
  fast_check : Place
  -- before the first read of `state`
  slow_check : Place
  -- before `init_lock.lock()`
  wait_lock : Place
  -- behind it, before the second read of `state`
  recheck : Place
  -- before the write of `Starting`
  begin_start : Place
  -- in `provider.start()`
  in_start : Place
  -- before the store of `ATOMIC_RUNNING`, and of `ATOMIC_ERROR`
  publish_running : Place
  publish_error : String → Place
  -- before the write of `Stopping`, and in `provider.stop()`
  begin_stop : Place
  in_stop : Place
  returned : Result → Place

-- The match on `atomic_state`.
abbrev pub after_fast_check : ℕ → Place
after_fast_check n =
    if eqb n 2
    then returned ok
    else if eqb n 4
    then returned (error "Service has been stopped")
    else slow_check

-- The container and the place behind the first read of `state`.
abbrev pub after_slow_check : ServiceContainer → ServiceState → ServiceContainer × Place
after_slow_check c running = (c, returned ok)
after_slow_check c (failed msg) = (c, returned (error ("Service in error state: " ++ msg)))
after_slow_check c stopped = (c, returned (error "Service has been stopped"))
after_slow_check c _ = (record c { startup_wait_count = count_up c.startup_wait_count }, wait_lock)

-- Behind the second read; the guard goes with a return.
abbrev pub after_recheck : ServiceContainer → ServiceState → ServiceContainer × Place
after_recheck c running = (record c { init_lock = none }, returned ok)
after_recheck c _ = (c, begin_start)

-- Behind `provider.start()` with its result.
abbrev pub after_start : ServiceContainer → Result → ServiceContainer × Place
after_start c ok = (record c { state = running }, publish_running)
after_start c (error msg) = (record c { state = failed msg }, publish_error msg)

-- Behind `provider.stop()` with its result.
abbrev pub after_stop : ServiceContainer → Result → ServiceContainer × Place
after_stop c ok = (record c { state = stopped; atomic_state = 4 }, returned ok)
after_stop c (error msg) = (c, returned (error msg))

-- The lock is free: the thread takes it. Else the thread waits.
abbrev pub take_lock : ℕ → ServiceContainer → Option ℕ → Option (ServiceContainer × Place)
take_lock thread c none = some (record c { init_lock = some thread }, recheck)
take_lock thread c (some holder) = none

-- The next step of a thread, if it has one; `answer` is what the provider returns in this step.
unfoldable pub advance : ℕ → Result → ServiceContainer → Place → Option (ServiceContainer × Place)
advance thread answer c fast_check = some (c, after_fast_check c.atomic_state)
advance thread answer c slow_check = some (after_slow_check c c.state)
advance thread answer c wait_lock = take_lock thread c c.init_lock
advance thread answer c recheck = some (after_recheck c c.state)
advance thread answer c begin_start = some (
  record c { state = starting; atomic_state = 1; startup_attempts = count_up c.startup_attempts },
  in_start,
)
advance thread answer c in_start = some (after_start c answer)
advance thread answer c publish_running =
    some (record c { atomic_state = 2; init_lock = none }, returned ok)
advance thread answer c (publish_error msg) =
    some (record c { atomic_state = 5; init_lock = none }, returned (error msg))
advance thread answer c begin_stop = some (record c { state = stopping; atomic_state = 3 }, in_stop)
advance thread answer c in_stop = some (after_stop c answer)
advance thread answer c (returned r) = none
