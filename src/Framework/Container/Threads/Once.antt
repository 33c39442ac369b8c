-- ===== src/Framework/Container/Threads/Once.antt =====
-- The starts of a service, and the calls that succeed, where nobody calls `stop`.
use openstack.Prelude.{
  ℕ, ◌+◌, ◌≤◌, ◌≡◌, ◌≢◌, refl, Bool, true, false, some, inl, inr, eqb, arith, sym, subst, ◌∙◌,
  Bool-cases, eqb_iff,
}
use openstack.Framework.Lifecycle.{ServiceState, running}
use openstack.Framework.Container.{
  ServiceContainer, Place, fast_check, slow_check, wait_lock, recheck, begin_start, in_start,
  publish_running, publish_error, begin_stop, in_stop, returned, ok, error,
}
use openstack.Framework.Container.Threads.{
  System, Step, step, Run, here, next, initial, holds, move_to, failure, OnNext-step,
}
use openstack.Framework.Container.Threads.Exclusion.{Exclusive, initial-Exclusive, Step-Exclusive}
use openstack.Framework.Container.Threads.Start.{
  Agrees, starts, Mirrored, Quiet, Begins, Ends, StartMove, advance-StartMove,
}

pub record Sound (s : System) : Type 0 where
  pub exclusive : Exclusive s
  pub mirrored : Mirrored s.container
  pub agrees : (t : ℕ) → Agrees s.container.state (s.threads t)
  pub bounded : s.container.startup_attempts ≤ s.failures + 1
  pub spare :
      s.container.state ≢ running
      → ((t : ℕ) → starts (s.threads t) ≡ false)
      → s.container.startup_attempts ≤ s.failures

-- A place outside the lock bears a change of the state from one that is not `running`.
Agrees-frame :
    (s s' : ServiceState) (p : Place) → s ≢ running → holds p ≡ false → Agrees s p → Agrees s' p
Agrees-frame s s' fast_check n h a = tt
Agrees-frame s s' slow_check n h a = tt
Agrees-frame s s' wait_lock n h a = tt
Agrees-frame s s' recheck n h a = tt
Agrees-frame s s' begin_start n h a = absurd (cc)
Agrees-frame s s' in_start n h a = absurd (cc)
Agrees-frame s s' publish_running n h a = absurd (cc)
Agrees-frame s s' (publish_error msg) n h a = tt
Agrees-frame s s' begin_stop n h a = a
Agrees-frame s s' in_stop n h a = a
Agrees-frame s s' (returned ok) n h a = absurd (n a)
Agrees-frame s s' (returned (error msg)) n h a = tt

starts-free : (p : Place) → holds p ≡ false → starts p ≡ false
starts-free fast_check h = refl
starts-free slow_check h = refl
starts-free wait_lock h = refl
starts-free recheck h = refl
starts-free begin_start h = refl
starts-free in_start h = h
starts-free publish_running h = refl
starts-free (publish_error msg) h = refl
starts-free begin_stop h = refl
starts-free in_stop h = refl
starts-free (returned r) h = refl

module _ (s : System) (sound : Sound s) (thread : ℕ) where
  -- While a thread has the lock no other has.
  others-free :
      holds (s.threads thread) ≡ true → (t : ℕ) → eqb t thread ≡ false → holds (s.threads t) ≡ false
  others-free had t other = elim (Bool-cases (holds (s.threads t))) [
    | inl also ↦
        let e : some t ≡ some thread = sym (sound.exclusive t also) ∙ sound.exclusive thread had in
        absurd (ground (arith, eqb_iff t thread))
    | inr free ↦ free
  ]

  -- At the begin of a start no thread runs `start`.
  none-started :
      s.threads thread ≡ begin_start
      → ((t : ℕ) → eqb t thread ≡ false → holds (s.threads t) ≡ false)
      → (t : ℕ) → starts (s.threads t) ≡ false
  none-started before free t = elim (Bool-cases (eqb t thread)) [
    | inl same ↦ rw ((eqb_iff t thread).0 same, before) refl
    | inr other ↦ starts-free (s.threads t) (free t other)
  ]

  module _ (c' : ServiceContainer) (place' : Place) where
    abbrev after : System
    after = record {
      container = c';
      threads = move_to thread place' s.threads;
      failures = s.failures + failure place';
    }

    -- What every thread's place says of the state, from what the mover's and the others' say.
    moved-Agrees :
        Agrees c'.state place'
        → ((t : ℕ) → eqb t thread ≡ false → Agrees c'.state (s.threads t))
        → (t : ℕ) → Agrees c'.state (after.threads t)
    moved-Agrees own others t = elim (Bool-cases (eqb t thread)) [
      | inl same ↦ rw same own
      | inr other ↦ rw other (others t other)
    ]

    -- No thread ran `start` before, if none does now and the mover did not.
    none-starts :
        starts (s.threads thread) ≡ false
        → ((t : ℕ) → starts (after.threads t) ≡ false)
        → (t : ℕ) → starts (s.threads t) ≡ false
    none-starts own now t = elim (Bool-cases (eqb t thread)) [
      | inl same ↦ rw ((eqb_iff t thread).0 same) own
      | inr other ↦ let n = now t in rw other at n
    ]

    starts-in_start : place' ≡ in_start → ((t : ℕ) → starts (after.threads t) ≡ false) → ⊥
    starts-in_start in' now =
        let same : eqb thread thread ≡ true = (eqb_iff thread thread).1 refl in
        let mine = now thread in let no = rw (same, in') at mine in cc no

    Quiet-Sound : Exclusive after → Quiet s.container (s.threads thread) c' place' → Sound after
    Quiet-Sound x (state, attempts, mirrored, agrees, outside, stays, none') = record {
      exclusive = x;
      mirrored = mirrored;
      agrees = moved-Agrees agrees (λ t other. rw state (sound.agrees t));
      bounded = omega (arith, sound.bounded);
      spare = λ n now. omega (arith, sound.spare (rw state at n) (none-starts outside now));
    }

    Begins-Sound : Exclusive after → Begins s.container (s.threads thread) c' place' → Sound after
    Begins-Sound x (before, in', state, attempts, atomic) =
        let idle : s.container.state ≢ running = rw before at (sound.agrees thread) in
        let had : holds (s.threads thread) ≡ true = rw before in
        let free = others-free had in
        record {
          exclusive = x;
          mirrored = λ e. absurd (omega (arith));
          agrees = moved-Agrees (rw (state, in') (λ e. absurd (cc))) (λ t other.
              Agrees-frame s.container.state c'.state (s.threads t) idle (free t other)
                (sound.agrees t));
          bounded = omega (arith, sound.spare idle (none-started before free));
          spare = λ n now. absurd (starts-in_start in' now);
        }

    Ends-Sound : Exclusive after → Ends s.container (s.threads thread) c' place' → Sound after
    Ends-Sound x (before, attempts, atomic, agrees, stays, result) =
        let idle : s.container.state ≢ running = rw before at (sound.agrees thread) in
        let had : holds (s.threads thread) ≡ true = rw before in
        let free = others-free had in
        record {
          exclusive = x;
          mirrored = λ e. absurd (idle (sound.mirrored (sym atomic ∙ e)));
          agrees = moved-Agrees agrees (λ t other.
              Agrees-frame s.container.state c'.state (s.threads t) idle (free t other)
                (sound.agrees t));
          bounded = omega (arith, sound.bounded);
          spare =
              λ n now. elim result [ inl r ↦ absurd (n r) | inr f ↦ omega (arith, sound.bounded) ];
        }

Step-Sound : {s r : System} → Step s r → Sound s → Sound r
Step-Sound {s} move sound = go move (Step-Exclusive move sound.exclusive)
  where
    go : {r : System} → Step s r → Exclusive r → Sound r
    go (step thread answer c place e er) x = subst Sound (sym er) (
        by_move thread c place (rw er at x) (
          OnNext-step (StartMove s.container (s.threads thread)) _ c place e (
            advance-StartMove thread answer s.container (s.threads thread) (sound.agrees thread)
              sound.mirrored)))
      where
        by_move :
            (thread : ℕ) (c : ServiceContainer) (place : Place)
            → Exclusive (after s sound thread c place)
            → StartMove s.container (s.threads thread) c place
            → Sound (after s sound thread c place)
        by_move thread c place x (inl quiet) = Quiet-Sound s sound thread c place x quiet
        by_move thread c place x (inr (inl begins)) = Begins-Sound s sound thread c place x begins
        by_move thread c place x (inr (inr ends)) = Ends-Sound s sound thread c place x ends

-- Nobody calls `stop`.
abbrev pub no_stop : ℕ → Bool
no_stop t = false

initial-Sound : Sound (initial no_stop)
initial-Sound = record {
  exclusive = initial-Exclusive no_stop;
  mirrored = λ e. absurd (omega arith);
  agrees = λ t. tt;
  bounded = omega arith;
  spare = λ n h. omega arith;
}

Run-Sound : {s r : System} → Run s r → Sound s → Sound r
Run-Sound here sound = sound
Run-Sound (next run move) sound = Step-Sound move (Run-Sound run sound)

-- Whatever threads call `ensure_running`, in whatever order they run, and whatever `start` answers,
-- while nobody calls `stop`: `start` has been called at most once more often than it has failed, and
-- wherever a call has returned without an error the service is running.
pub ensure_running-started_once :
    (r : System)
    → Run (initial no_stop) r
    → (r.container.startup_attempts ≤ r.failures + 1)
      × ((t : ℕ) → r.threads t ≡ returned ok → r.container.state ≡ running)
ensure_running-started_once r run =
    let sound = Run-Sound run initial-Sound in
    (sound.bounded, λ t e. let a = sound.agrees t in rw e at a)
