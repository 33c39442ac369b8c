-- ===== src/Framework/Container/Threads/Progress.antt =====
-- Calls that have not returned, and the threads that can take a step.
use openstack.Prelude.{
  ℕ, ◌≡◌, refl, sym, ap, subst, ◌∙◌, Bool, true, Option, none, some, inl, inr, ◌⊎◌, eqb, Bool-cases,
  Option-cases, eqb_iff,
}
use openstack.Framework.Container.{
  ServiceContainer, Place, Result, advance, fast_check, slow_check, wait_lock, recheck, begin_start,
  in_start, publish_running, publish_error, begin_stop, in_stop, returned,
}
use openstack.Framework.Container.Threads.{
  System, Step, step, Run, here, next, initial, holds, move_to, OnNext-step,
}
use openstack.Framework.Container.Threads.Exclusion.{LockMove, advance-LockMove}

-- The thread that the lock names is between the lock and the return.
abbrev Held : System → Type 0
Held s = (t : ℕ) → s.container.init_lock ≡ some t → holds (s.threads t) ≡ true

Held-move :
    (thread : ℕ) (c c' : ServiceContainer) (place : Place) (threads : ℕ → Place)
    → ((t : ℕ) → c.init_lock ≡ some t → holds (threads t) ≡ true)
    → LockMove thread c (threads thread) c' place
    → (t : ℕ) → c'.init_lock ≡ some t
    → holds (move_to thread place threads t) ≡ true
Held-move thread c c' place threads before (inl (lock, same)) t e =
    elim (Bool-cases (eqb t thread)) [
      | inl own ↦
          let u : t ≡ thread = (eqb_iff t thread).0 own in
          rw own (same ∙ ap (λ x. holds (threads x)) (sym u) ∙ before t (sym lock ∙ e))
      | inr other ↦ rw other (before t (sym lock ∙ e))
    ]
Held-move thread c c' place threads before (inr (inl (free, taken, inside))) t e =
    let same : some thread ≡ some t = sym taken ∙ e in
    let own : eqb t thread ≡ true = (eqb_iff t thread).1 (cc) in rw own inside
Held-move thread c c' place threads before (inr (inr (had, gone, open'))) t e =
    let no : ◌≡◌ {A = Option ℕ} none (some t) = sym open' ∙ e in cc

Step-Held : {s r : System} → Step s r → Held s → Held r
Step-Held {s} (step thread answer c place e er) before = subst Held (sym er) (
    Held-move thread s.container c place s.threads before (
      OnNext-step (LockMove thread s.container (s.threads thread)) _ c place e
        (advance-LockMove thread answer s.container (s.threads thread))))

Run-Held : {s r : System} → Run s r → Held s → Held r
Run-Held here h = h
Run-Held (next run move) h = Step-Held move (Run-Held run h)

initial-Held : (stops : ℕ → Bool) → Held (initial stops)
initial-Held stops t e = absurd (cc e)

-- The thread has a next step.
abbrev pub CanStep : System → Result → ℕ → Type 0
CanStep s answer t =
    (after : ServiceContainer × Place) × (advance t answer s.container (s.threads t) ≡ some after)

holds-advance :
    (t : ℕ) (answer : Result) (c : ServiceContainer) (place : Place)
    → holds place ≡ true
    → (after : ServiceContainer × Place) × (advance t answer c place ≡ some after)
unfolding advance
holds-advance t answer c recheck h = (_, refl)
holds-advance t answer c begin_start h = (_, refl)
holds-advance t answer c in_start h = (_, refl)
holds-advance t answer c publish_running h = (_, refl)
holds-advance t answer c (publish_error msg) h = (_, refl)
holds-advance t answer c fast_check h = (_, refl)
holds-advance t answer c slow_check h = (_, refl)
holds-advance t answer c begin_stop h = (_, refl)
holds-advance t answer c in_stop h = (_, refl)
holds-advance t answer c wait_lock h = absurd (cc h)
holds-advance t answer c (returned r) h = absurd (cc h)

-- A thread at a place has returned, or has a step, or waits for a lock that another has.
place-cases :
    (t : ℕ) (answer : Result) (c : ServiceContainer) (place : Place)
    → ((r : Result) × (place ≡ returned r))
      ⊎ ((after : ServiceContainer × Place) × (advance t answer c place ≡ some after))
      ⊎ ((place ≡ wait_lock) × (holder : ℕ) × (c.init_lock ≡ some holder))
unfolding advance
place-cases t answer c (returned r) = inl (r, refl)
place-cases t answer c wait_lock = elim (Option-cases c.init_lock) [
  | inl free ↦ inr (inl ((record c { init_lock = some t }, recheck), rw free refl))
  | inr (u, held) ↦ inr (inr (refl, u, held))
]
place-cases t answer c recheck = inr (inl (_, refl))
place-cases t answer c begin_start = inr (inl (_, refl))
place-cases t answer c in_start = inr (inl (_, refl))
place-cases t answer c publish_running = inr (inl (_, refl))
place-cases t answer c (publish_error msg) = inr (inl (_, refl))
place-cases t answer c fast_check = inr (inl (_, refl))
place-cases t answer c slow_check = inr (inl (_, refl))
place-cases t answer c begin_stop = inr (inl (_, refl))
place-cases t answer c in_stop = inr (inl (_, refl))

-- No deadlock: whatever threads call `ensure_running` and `stop`, and in whatever order they ran, a
-- thread that has not returned can take a step, or it waits for the lock and the thread that has the
-- lock can take a step.
pub initial-no_deadlock :
    (stops : ℕ → Bool) (r : System) (answer : Result) (t : ℕ)
    → Run (initial stops) r
    → ((result : Result) × (r.threads t ≡ returned result))
      ⊎ CanStep r answer t
      ⊎ ((r.threads t ≡ wait_lock)
          × (holder : ℕ) × (r.container.init_lock ≡ some holder)
          × CanStep r answer holder)
initial-no_deadlock stops r answer t run = elim (place-cases t answer r.container (r.threads t)) [
  | inl done ↦ inl done
  | inr (inl can) ↦ inr (inl can)
  | inr (inr (waits, u, held)) ↦ inr (
      inr (
        waits,
        u,
        held,
        holds-advance u answer r.container (r.threads u) (Run-Held run (initial-Held stops) u held),
      ))
]
