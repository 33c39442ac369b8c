-- ===== src/Framework/Container/Threads/Exclusion.antt =====
-- The lock that guards the start of a service.
use openstack.Prelude.{
  ℕ, ◌≡◌, refl, Bool, true, false, Option, none, some, inl, inr, ◌⊎◌, eqb, arith, sym, ap, subst,
  ◌∙◌, Bool-cases, eqb_iff,
}
use openstack.Framework.Lifecycle.{
  ServiceState, available, starting, running, stopping, stopped, failed,
}
use openstack.Framework.Container.{
  ServiceContainer, Place, Result, advance, after_fast_check, after_slow_check, after_recheck,
  take_lock, fast_check, slow_check, wait_lock, recheck, begin_start, in_start, publish_running,
  publish_error, begin_stop, in_stop, returned, ok, error,
}
use openstack.Framework.Container.Threads.{
  System, Step, step, Run, here, next, initial, holds, move_to, OnNext, OnNext-step,
}

-- What a step of `thread` does with the lock: nothing, or it takes the free lock, or it gives back
-- the lock that it has.
abbrev pub LockMove : ℕ → ServiceContainer → Place → ServiceContainer → Place → Type 0
LockMove thread c place c' place' =
    ((c'.init_lock ≡ c.init_lock) × (holds place' ≡ holds place))
    ⊎ ((c.init_lock ≡ none) × (c'.init_lock ≡ some thread) × (holds place' ≡ true))
    ⊎ ((holds place ≡ true) × (holds place' ≡ false) × (c'.init_lock ≡ none))

LockMove-fast :
    (thread : ℕ) (c : ServiceContainer) (n : ℕ)
    → LockMove thread c fast_check c (after_fast_check n)
LockMove-fast thread c n = inl (refl, ground arith)

LockMove-slow :
    (thread : ℕ) (c : ServiceContainer) (s : ServiceState)
    → LockMove thread c slow_check (after_slow_check c s).0 (after_slow_check c s).1
LockMove-slow thread c running = inl (refl, refl)
LockMove-slow thread c (failed msg) = inl (refl, refl)
LockMove-slow thread c stopped = inl (refl, refl)
LockMove-slow thread c available = inl (refl, refl)
LockMove-slow thread c starting = inl (refl, refl)
LockMove-slow thread c stopping = inl (refl, refl)

LockMove-recheck :
    (thread : ℕ) (c : ServiceContainer) (s : ServiceState)
    → LockMove thread c recheck (after_recheck c s).0 (after_recheck c s).1
LockMove-recheck thread c running = inr (inr (refl, refl, refl))
LockMove-recheck thread c (failed msg) = inl (refl, refl)
LockMove-recheck thread c stopped = inl (refl, refl)
LockMove-recheck thread c available = inl (refl, refl)
LockMove-recheck thread c starting = inl (refl, refl)
LockMove-recheck thread c stopping = inl (refl, refl)

LockMove-take :
    (thread : ℕ) (c : ServiceContainer) (lock : Option ℕ)
    → c.init_lock ≡ lock
    → OnNext (LockMove thread c wait_lock) (take_lock thread c lock)
LockMove-take thread c none e = inr (inl (e, refl, refl))
LockMove-take thread c (some holder) e = tt

pub advance-LockMove :
    (thread : ℕ) (answer : Result) (c : ServiceContainer) (place : Place)
    → OnNext (LockMove thread c place) (advance thread answer c place)
unfolding advance
advance-LockMove thread answer c fast_check = LockMove-fast thread c c.atomic_state
advance-LockMove thread answer c slow_check = LockMove-slow thread c c.state
advance-LockMove thread answer c wait_lock = LockMove-take thread c c.init_lock refl
advance-LockMove thread answer c recheck = LockMove-recheck thread c c.state
advance-LockMove thread answer c begin_start = inl (refl, refl)
advance-LockMove thread ok c in_start = inl (refl, refl)
advance-LockMove thread (error msg) c in_start = inl (refl, refl)
advance-LockMove thread answer c publish_running = inr (inr (refl, refl, refl))
advance-LockMove thread answer c (publish_error msg) = inr (inr (refl, refl, refl))
advance-LockMove thread answer c begin_stop = inl (refl, refl)
advance-LockMove thread ok c in_stop = inl (refl, refl)
advance-LockMove thread (error msg) c in_stop = inl (refl, refl)
advance-LockMove thread answer c (returned r) = tt

-- Only the thread that the lock names is between the lock and the return.
abbrev pub Exclusive : System → Type 0
Exclusive s = (t : ℕ) → holds (s.threads t) ≡ true → s.container.init_lock ≡ some t

Exclusive-move :
    (thread : ℕ) (c c' : ServiceContainer) (place : Place) (threads : ℕ → Place)
    → ((t : ℕ) → holds (threads t) ≡ true → c.init_lock ≡ some t)
    → LockMove thread c (threads thread) c' place
    → (t : ℕ) → holds (move_to thread place threads t) ≡ true
    → c'.init_lock ≡ some t
Exclusive-move thread c c' place threads before (inl (lock, same)) t h =
    elim (Bool-cases (eqb t thread)) [
      | inl own ↦
          let e : t ≡ thread = (eqb_iff t thread).0 own in
          lock ∙ before t (ap (λ u. holds (threads u)) e ∙ sym same ∙ (rw own at h))
      | inr other ↦ lock ∙ before t (rw other at h)
    ]
Exclusive-move thread c c' place threads before (inr (inl (free, taken, here'))) t h =
    elim (Bool-cases (eqb t thread)) [
      | inl own ↦ taken ∙ ap some (sym ((eqb_iff t thread).0 own))
      | inr other ↦ absurd (cc (before t (rw other at h), free))
    ]
Exclusive-move thread c c' place threads before (inr (inr (had, gone, open'))) t h =
    elim (Bool-cases (eqb t thread)) [
      | inl own ↦ absurd (cc (rw own at h, gone))
      | inr other ↦
          let e : some t ≡ some thread = sym (before t (rw other at h)) ∙ before thread had in
          absurd (ground (arith, eqb_iff t thread))
    ]

pub Step-Exclusive : {s r : System} → Step s r → Exclusive s → Exclusive r
Step-Exclusive {s} (step thread answer c place e er) before = subst Exclusive (sym er) (
    Exclusive-move thread s.container c place s.threads before (
      OnNext-step (LockMove thread s.container (s.threads thread)) _ c place e
        (advance-LockMove thread answer s.container (s.threads thread))))

pub initial-Exclusive : (stops : ℕ → Bool) → Exclusive (initial stops)
initial-Exclusive stops t h = absurd (ground arith)

pub Run-Exclusive : {s r : System} → Run s r → Exclusive s → Exclusive r
Run-Exclusive here x = x
Run-Exclusive (next run move) x = Step-Exclusive move (Run-Exclusive run x)

-- Whatever threads call `ensure_running` and `stop`, and in whatever order they run: no two of them
-- are at once between the lock and the return of `ensure_running`, so no two run `start` at once.
pub initial-mutual_exclusion :
    (stops : ℕ → Bool) (r : System) (t u : ℕ)
    → Run (initial stops) r
    → holds (r.threads t) ≡ true
    → holds (r.threads u) ≡ true
    → t ≡ u
initial-mutual_exclusion stops r t u run ht hu =
    let x = Run-Exclusive run (initial-Exclusive stops) in
    let e : some t ≡ some u = sym (x t ht) ∙ x u hu in cc
