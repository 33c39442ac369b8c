-- ===== src/Framework/Container/Threads/Start.antt =====
-- What one step does to the start of a service, where nobody calls `stop`.
use openstack.Prelude.{
  ℕ, ◌+◌, ◌≤◌, ◌≡◌, ◌≢◌, refl, Bool, true, false, Option, none, some, inl, inr, ◌⊎◌, eqb, arith,
  ◌∙◌, Bool-cases, eqb_iff,
}
use openstack.Framework.Lifecycle.{
  ServiceState, available, starting, running, stopping, stopped, failed,
}
use openstack.Framework.Container.{
  ServiceContainer, Place, Result, advance, after_fast_check, after_slow_check, after_recheck,
  take_lock, fast_check, slow_check, wait_lock, recheck, begin_start, in_start, publish_running,
  publish_error, begin_stop, in_stop, returned, ok, error,
}
use openstack.Framework.Container.Threads.{failure, OnNext}

-- What a thread's place says of the state of the service.
abbrev pub Agrees : ServiceState → Place → Type 0
Agrees s (returned ok) = s ≡ running
Agrees s publish_running = s ≡ running
Agrees s begin_start = s ≢ running
Agrees s in_start = s ≢ running
Agrees s begin_stop = ⊥
Agrees s in_stop = ⊥
Agrees s _ = Unit

-- The thread runs `start`.
abbrev pub starts : Place → Bool
starts in_start = true
starts _ = false

abbrev pub Mirrored : ServiceContainer → Type 0
Mirrored c = c.atomic_state ≡ 2 → c.state ≡ running

-- A step that neither begins nor ends a start, one that begins it, and one that ends it.
abbrev pub Quiet : ServiceContainer → Place → ServiceContainer → Place → Type 0
Quiet c place c' place' =
    (c'.state ≡ c.state)
    × (c'.startup_attempts ≡ c.startup_attempts)
    × Mirrored c'
    × Agrees c'.state place'
    × (starts place ≡ false)
    × (starts place' ≡ false)
    × (failure place' ≡ 0)

abbrev pub Begins : ServiceContainer → Place → ServiceContainer → Place → Type 0
Begins c place c' place' =
    (place ≡ begin_start)
    × (place' ≡ in_start)
    × (c'.state ≡ starting)
    × (c'.startup_attempts ≤ c.startup_attempts + 1)
    × (c'.atomic_state ≡ 1)

abbrev pub Ends : ServiceContainer → Place → ServiceContainer → Place → Type 0
Ends c place c' place' =
    (place ≡ in_start)
    × (c'.startup_attempts ≡ c.startup_attempts)
    × (c'.atomic_state ≡ c.atomic_state)
    × Agrees c'.state place'
    × (starts place' ≡ false)
    × ((c'.state ≡ running) ⊎ (failure place' ≡ 1))

abbrev pub StartMove : ServiceContainer → Place → ServiceContainer → Place → Type 0
StartMove c place c' place' =
    Quiet c place c' place' ⊎ Begins c place c' place' ⊎ Ends c place c' place'

fast-Quiet :
    (c : ServiceContainer) (n : ℕ)
    → c.atomic_state ≡ n
    → Mirrored c
    → Quiet c fast_check c (after_fast_check n)
fast-Quiet c n e m = elim (Bool-cases (eqb n 2)) [
  | inl two ↦ rw two (refl, refl, m, m (e ∙ (eqb_iff n 2).0 two), refl, refl, refl)
  | inr other ↦ elim (Bool-cases (eqb n 4)) [
    | inl four ↦ rw (other, four) (refl, refl, m, tt, refl, refl, refl)
    | inr else' ↦ rw (other, else') (refl, refl, m, tt, refl, refl, refl)
  ]
]

slow-Quiet :
    (c : ServiceContainer) (s : ServiceState)
    → c.state ≡ s
    → Mirrored c
    → Quiet c slow_check (after_slow_check c s).0 (after_slow_check c s).1
slow-Quiet c running e m = (refl, refl, m, e, refl, refl, refl)
slow-Quiet c (failed msg) e m = (refl, refl, m, tt, refl, refl, refl)
slow-Quiet c stopped e m = (refl, refl, m, tt, refl, refl, refl)
slow-Quiet c available e m = (refl, refl, m, tt, refl, refl, refl)
slow-Quiet c starting e m = (refl, refl, m, tt, refl, refl, refl)
slow-Quiet c stopping e m = (refl, refl, m, tt, refl, refl, refl)

recheck-Quiet :
    (c : ServiceContainer) (s : ServiceState)
    → c.state ≡ s
    → Mirrored c
    → Quiet c recheck (after_recheck c s).0 (after_recheck c s).1
recheck-Quiet c running e m = (refl, refl, m, e, refl, refl, refl)
recheck-Quiet c (failed msg) e m = (refl, refl, m, λ r. absurd (cc), refl, refl, refl)
recheck-Quiet c stopped e m = (refl, refl, m, λ r. absurd (cc), refl, refl, refl)
recheck-Quiet c available e m = (refl, refl, m, λ r. absurd (cc), refl, refl, refl)
recheck-Quiet c starting e m = (refl, refl, m, λ r. absurd (cc), refl, refl, refl)
recheck-Quiet c stopping e m = (refl, refl, m, λ r. absurd (cc), refl, refl, refl)

take-Quiet :
    (thread : ℕ) (c : ServiceContainer) (lock : Option ℕ)
    → Mirrored c
    → OnNext (StartMove c wait_lock) (take_lock thread c lock)
take-Quiet thread c none m = inl (refl, refl, m, tt, refl, refl, refl)
take-Quiet thread c (some holder) m = tt

pub advance-StartMove :
    (thread : ℕ) (answer : Result) (c : ServiceContainer) (place : Place)
    → Agrees c.state place
    → Mirrored c
    → OnNext (StartMove c place) (advance thread answer c place)
unfolding advance
advance-StartMove thread answer c fast_check a m = inl (fast-Quiet c c.atomic_state refl m)
advance-StartMove thread answer c slow_check a m = inl (slow-Quiet c c.state refl m)
advance-StartMove thread answer c wait_lock a m = take-Quiet thread c c.init_lock m
advance-StartMove thread answer c recheck a m = inl (recheck-Quiet c c.state refl m)
advance-StartMove thread answer c begin_start a m = inr (inl (refl, refl, refl, omega arith, refl))
advance-StartMove thread ok c in_start a m = inr (inr (refl, refl, refl, refl, refl, inl refl))
advance-StartMove thread (error msg) c in_start a m =
    inr (inr (refl, refl, refl, tt, refl, inr refl))
advance-StartMove thread answer c publish_running a m =
    inl (refl, refl, λ _. a, a, refl, refl, refl)
advance-StartMove thread answer c (publish_error msg) a m =
    inl (refl, refl, λ e. absurd (omega arith), tt, refl, refl, refl)
advance-StartMove thread answer c begin_stop a m = absurd a
advance-StartMove thread answer c in_stop a m = absurd a
advance-StartMove thread answer c (returned r) a m = tt
