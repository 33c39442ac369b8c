-- ===== src/Framework/Container/Tests.antt =====
-- One thread that starts the service, and one that waits for it.
use openstack.Prelude.{ℕ, ◌+◌, ◌≤◌, ◌≡◌, refl, ◌⊎◌, some}
use openstack.Framework.Lifecycle.{running}
use openstack.Framework.Container.{advance, returned, wait_lock, Result, ok}
use openstack.Framework.Container.Threads.{System, initial, Run, here, next, step}
use openstack.Framework.Container.Threads.Exclusion.{initial-mutual_exclusion}
use openstack.Framework.Container.Threads.Progress.{CanStep, initial-no_deadlock}
use openstack.Framework.Container.Threads.Once.{no_stop, ensure_running-started_once}

-- Thread 0 is in `start`, and thread 1 waits for the lock.
in_start_run : (r : System) × Run (initial no_stop) r
unfolding advance
in_start_run = (
  _,
  next
      (next
        (next
          (next
            (next (next (next here (step 0 ok _ _ refl refl)) (step 1 ok _ _ refl refl))
              (step 0 ok _ _ refl refl))
            (step 1 ok _ _ refl refl))
          (step 0 ok _ _ refl refl))
        (step 0 ok _ _ refl refl))
      (step 0 ok _ _ refl refl),
)

-- Thread 0 has returned.
started_run : (r : System) × Run (initial no_stop) r
unfolding advance in_start_run
started_run = (_, next (next in_start_run.1 (step 0 ok _ _ refl refl)) (step 0 ok _ _ refl refl))

initial-mutual_exclusion_example : ◌≡◌ {A = ℕ} 0 0
unfolding in_start_run
initial-mutual_exclusion_example =
    initial-mutual_exclusion no_stop in_start_run.0 0 0 in_start_run.1 refl refl

ensure_running-started_once_example :
    (started_run.0.container.startup_attempts ≤ started_run.0.failures + 1)
    × ((t : ℕ) → started_run.0.threads t ≡ returned ok → started_run.0.container.state ≡ running)
ensure_running-started_once_example = ensure_running-started_once started_run.0 started_run.1

initial-no_deadlock_example :
    ((result : Result) × (in_start_run.0.threads 1 ≡ returned result))
    ⊎ CanStep in_start_run.0 ok 1
    ⊎ ((in_start_run.0.threads 1 ≡ wait_lock)
        × (holder : ℕ) × (in_start_run.0.container.init_lock ≡ some holder)
        × CanStep in_start_run.0 ok holder)
initial-no_deadlock_example = initial-no_deadlock no_stop in_start_run.0 ok 1 in_start_run.1
