-- ===== src/Framework/Container/Threads.antt =====
-- Threads that call `ensure_running` and `stop` on one container, in any interleaving.
pub mod Exclusion
pub mod Start
pub mod Once
pub mod Progress
use openstack.Prelude.{
  ℕ, ◌+◌, ◌≡◌, Bool, true, false, Option, none, some, subst, eqb, if◌then◌else◌,
}
use openstack.Framework.Container.{
  ServiceContainer, Place, Result, new, advance, fast_check, slow_check, wait_lock, recheck,
  begin_start, in_start, publish_running, publish_error, begin_stop, in_stop, returned,
}

-- All threads and their container; `failures` counts the calls of `start` that gave an error.
pub record System : Type 0 where
  pub container : ServiceContainer
  pub threads : ℕ → Place
  pub failures : ℕ

abbrev pub move_to : ℕ → Place → (ℕ → Place) → ℕ → Place
move_to thread place threads t = if eqb t thread then place else threads t

abbrev pub failure : Place → ℕ
failure (publish_error msg) = 1
failure _ = 0

-- A thread takes its next step.
pub data Step (s : System) (r : System) : Type 0 where
  step :
      (thread : ℕ) (answer : Result) (c : ServiceContainer) (place : Place)
      → advance thread answer s.container (s.threads thread) ≡ some (c, place)
      → r ≡ record {
        container = c;
        threads = move_to thread place s.threads;
        failures = s.failures + failure place;
      }
      → Step s r

pub data Run (s : System) : System → Type 0 where
  here : Run s s
  next : {r t : System} → Run s r → Step r t → Run s t

-- The start of a call: of `stop` where `stops` says so, else of `ensure_running`.
abbrev pub initial : (ℕ → Bool) → System
initial stops = record {
  container = new;
  threads = λ t. if stops t then begin_stop else fast_check;
  failures = 0;
}

-- The thread is between `lock().await` and the return.
abbrev pub holds : Place → Bool
holds recheck = true
holds begin_start = true
holds in_start = true
holds publish_running = true
holds (publish_error msg) = true
holds _ = false

-- What holds of the next step, if there is one.
abbrev pub OnNext : (ServiceContainer → Place → Type 0) → Option (ServiceContainer × Place) → Type 0
OnNext P none = Unit
OnNext P (some (c, place)) = P c place

pub OnNext-step :
    (P : ServiceContainer → Place → Type 0) (o : Option (ServiceContainer × Place))
    (c : ServiceContainer) (place : Place)
    → o ≡ some (c, place)
    → OnNext P o
    → P c place
OnNext-step P o c place e h = subst (OnNext P) e h
