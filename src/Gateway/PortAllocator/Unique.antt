-- ===== src/Gateway/PortAllocator/Unique.antt =====
-- The ports that parallel calls of `allocate_port` in crates/gateway/src/port_allocator.rs return.
use openstack.Prelude.{
  ℕ, ◌≤◌, ◌<◌, ◌≡◌, ◌≢◌, sym, subst, ◌∙◌, Option, none, some, inl, inr, Bool-cases, eqb, eqb_iff,
  ltb, arith,
}
use openstack.Gateway.PortAllocator.{
  external_service_ports_start, external_service_ports_end, Place, load, exchange, returned,
  advance, System, initial, move_to, Step, step, Run, here, then_step,
}

-- What a place says of the counter: a port handed out lies behind it.
abbrev Fits : ℕ → Place → Type 0
Fits next load = Unit
Fits next (exchange n) = (4510 ≤ n) × (n ≤ 4560)
Fits next (returned none) = 4561 ≤ next
Fits next (returned (some p)) = (4510 ≤ p) × (p ≤ 4560) × (p < next)

-- No two threads have one port.
abbrev Apart : (ℕ → Place) → Type 0
Apart threads = (t u p : ℕ) → threads t ≡ returned (some p) → threads u ≡ returned (some p) → t ≡ u

pub record Sound (s : System) : Type 0 where
  pub above : 4510 ≤ s.next_port
  pub below : s.next_port ≤ 4561
  pub fits : (t : ℕ) → Fits s.next_port (s.threads t)
  pub apart : Apart s.threads

Fits-mono : (n m : ℕ) (p : Place) → n ≤ m → Fits n p → Fits m p
Fits-mono n m load le f = tt
Fits-mono n m (exchange k) le f = f
Fits-mono n m (returned none) le f = omega arith
Fits-mono n m (returned (some p)) le (lo, hi, lt) = (lo, hi, omega arith)

-- A step moves the counter up; a port that it returns is the counter's old value.
abbrev Moves : ℕ → ℕ → Place → Type 0
Moves next next' place =
    (next ≤ next')
    × (next' ≤ 4561)
    × Fits next' place
    × ((p : ℕ) → place ≡ returned (some p) → p ≡ next)

abbrev OnNext : (ℕ → Place → Type 0) → Option (ℕ × Place) → Type 0
OnNext P none = Unit
OnNext P (some (n, place)) = P n place

OnNext-step :
    (P : ℕ → Place → Type 0) (o : Option (ℕ × Place)) (n : ℕ) (place : Place)
    → o ≡ some (n, place)
    → OnNext P o
    → P n place
OnNext-step P o n place e h = subst (OnNext P) e h

advance-Moves :
    (next : ℕ) (place : Place)
    → 4510 ≤ next
    → next ≤ 4561
    → Fits next place
    → OnNext (Moves next) (advance next place)
unfolding advance
advance-Moves next load lo hi f = elim (Bool-cases (ltb 4560 next)) [
  | inl over ↦ rw over (omega arith, hi, ground arith, λ p e. absurd (cc))
  | inr room ↦ rw room (omega arith, hi, (lo, ground arith), λ p e. absurd (cc))
]
advance-Moves next (exchange n) lo hi (f, g) = elim (Bool-cases (eqb next n)) [
  | inl same ↦
      let e : next ≡ n = (eqb_iff next n).0 same in
      rw same (omega arith, omega arith, (f, g, omega arith), λ p r. cc)
  | inr other ↦ rw other (omega arith, hi, tt, λ p e. absurd (cc))
]
advance-Moves next (returned r) lo hi f = tt

module _ (s : System) (sound : Sound s) (thread next : ℕ) (place : Place)
    (m : Moves s.next_port next place) where
  abbrev after : System
  after = record { next_port = next; threads = move_to thread place s.threads }

  after-Fits : (t : ℕ) → Fits next (after.threads t)
  after-Fits t = elim (Bool-cases (eqb t thread)) [
    | inl own ↦ rw own m.2
    | inr other ↦ rw other (Fits-mono s.next_port next (s.threads t) m.0 (sound.fits t))
  ]

  -- The port that the mover returns is none of those handed out before.
  new_port-ne : (u p : ℕ) → place ≡ returned (some p) → s.threads u ≢ returned (some p)
  new_port-ne u p own other =
      let f = sound.fits u in let lt = rw other at f in absurd (omega (arith, m.3 p own, lt))

  after-Apart : Apart after.threads
  after-Apart t u p et eu = elim (Bool-cases (eqb t thread)) [
    | inl t_own ↦ elim (Bool-cases (eqb u thread)) [
      | inl u_own ↦ (eqb_iff t thread).0 t_own ∙ sym ((eqb_iff u thread).0 u_own)
      | inr u_other ↦ absurd (new_port-ne u p (rw t_own at et) (rw u_other at eu))
    ]
    | inr t_other ↦ elim (Bool-cases (eqb u thread)) [
      | inl u_own ↦ absurd (new_port-ne t p (rw u_own at eu) (rw t_other at et))
      | inr u_other ↦ sound.apart t u p (rw t_other at et) (rw u_other at eu)
    ]
  ]

  after-Sound : Sound after
  after-Sound = record {
    above = omega (arith, sound.above, m.0);
    below = m.1;
    fits = after-Fits;
    apart = after-Apart;
  }

Step-Sound : {s r : System} → Step s r → Sound s → Sound r
Step-Sound {s} (step thread next place e er) sound = subst Sound (sym er) (
    after-Sound s sound thread next place (
      OnNext-step (Moves s.next_port) _ next place e
        (advance-Moves s.next_port (s.threads thread) sound.above sound.below (sound.fits thread))))

Run-Sound : {s r : System} → Run s r → Sound s → Sound r
Run-Sound here sound = sound
Run-Sound (then_step run move) sound = Step-Sound move (Run-Sound run sound)

initial-Sound : Sound initial
initial-Sound = record {
  above = omega arith;
  below = omega arith;
  fits = λ t. tt;
  apart = λ t u p e f. absurd (cc);
}

-- Whatever calls of `allocate_port` run in parallel, in whatever order their steps come: no two calls
-- return one port, every port returned lies in the range, and a call returns none only when the
-- counter has passed the end of the range.
pub allocate_port_unique :
    (r : System)
    → Run initial r
    → ((t u p : ℕ) → r.threads t ≡ returned (some p) → r.threads u ≡ returned (some p) → t ≡ u)
      × ((t p : ℕ)
          → r.threads t ≡ returned (some p)
          → (external_service_ports_start ≤ p) × (p ≤ external_service_ports_end))
      × ((t : ℕ) → r.threads t ≡ returned none → external_service_ports_end < r.next_port)
allocate_port_unique r run =
    let sound = Run-Sound run initial-Sound in
    (
      sound.apart,
      λ t p e. let f = sound.fits t in let g = rw e at f in (g.0, g.1),
      λ t e. let f = sound.fits t in let g = rw e at f in omega arith,
    )
