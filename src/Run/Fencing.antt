-- ===== src/Run/Fencing.antt =====
-- How the execution epoch fences a run (internal/run/model.go).
-- The operations that a caller makes with the epoch it believes to be current.
use engineering_platform.Prelude.{
  Bool-cases, Exec, List, Result, String, [], arith, err, false, inl, inr, is_ok, length, ok, refl,
  true, ℕ, ◌+◌, ◌<◌, ◌^◌, ◌↔◌, ◌∷◌, ◌≡◌, ◌≤◌,
}
use engineering_platform.Run.{
  Run, State, abort, aborted, check_epoch, complete, completed, human_controlled, is_terminal,
  pause, paused, resume, running, start_attempt, takeover,
}

pub data Control : Type 0 where
  pausing resuming taking_over completing aborting : Control

abbrev drop : {A : Type 0} → Result A × Run → Result (Unit {0}) × Run
drop (ok a, r) = (ok tt, r)
drop (err e, r) = (err e, r)

pub perform : Control → ℕ → Exec Run Unit
perform pausing epoch r = pause epoch r
perform resuming epoch r = resume epoch r
perform taking_over epoch r = drop (takeover epoch r)
perform completing epoch r = complete epoch r
perform aborting epoch r = abort epoch r

abbrev pub target : Control → State
target pausing = paused
target resuming = running
target taking_over = human_controlled
target completing = completed
target aborting = aborted

-- Every fenced operation succeeds exactly when the caller's epoch is the current one and the run is
-- not at its end. It then brings the run to the operation's state, and otherwise the run is as it
-- was.
pub perform_exact :
    (op : Control) (epoch : ℕ) (r : Run)
    → ((is_ok (perform op epoch r).0 ≡ true)
        ↔ ((epoch ≡ r.current_epoch) × (is_terminal r.state ≡ false)))
      × (is_ok (perform op epoch r).0 ≡ true → (perform op epoch r).1.state ≡ target op)
      × (is_ok (perform op epoch r).0 ≡ false → (perform op epoch r).1 ≡ r)
unfolding perform pause resume takeover complete abort check_epoch
perform_exact pausing epoch r = ground arith
perform_exact resuming epoch r = ground arith
perform_exact taking_over epoch r = ground arith
perform_exact completing epoch r = ground arith
perform_exact aborting epoch r = ground arith

-- What may happen to a run: an operation, or the start of an attempt.
pub data Event : Type 0 where
  operate : Control → ℕ → Event
  attempt : String → ℕ → Event

pub step : Event → Run → Run
unfolding perform
step (operate op epoch) r = (perform op epoch r).1
step (attempt id now) r = (start_attempt id now r).1

pub steps : List Event → Run → Run
unfolding step
steps [] r = r
steps (e ∷ es) r = steps es (step e r)

step_epoch :
    (e : Event) (r : Run)
    → r.current_epoch + 1 < 2 ^ 64
    → (r.current_epoch ≤ (step e r).current_epoch)
      × ((step e r).current_epoch ≤ r.current_epoch + 1)
unfolding step perform pause resume takeover complete abort check_epoch start_attempt
step_epoch (operate pausing epoch) r h = ground arith
step_epoch (operate resuming epoch) r h = ground arith
step_epoch (operate taking_over epoch) r h = ground arith
step_epoch (operate completing epoch) r h = ground arith
step_epoch (operate aborting epoch) r h = ground arith
step_epoch (attempt id now) r h = ground arith

-- However many operations and attempts there are, the epoch of a run never falls, as long as it
-- stays below 2 ^ 64.
pub steps_epoch :
    (es : List Event) (r : Run)
    → r.current_epoch + length es < 2 ^ 64
    → r.current_epoch ≤ (steps es r).current_epoch
unfolding steps
steps_epoch [] r h = omega arith
steps_epoch (e ∷ es) r h =
    let (a, b) = step_epoch e r (omega arith) in
    let c = steps_epoch es (step e r) (omega arith) in omega arith

takeover_epoch :
    (epoch : ℕ) (r : Run)
    → r.current_epoch + 1 < 2 ^ 64
    → is_ok (takeover epoch r).0 ≡ true
    → ((takeover epoch r).1.current_epoch ≡ epoch + 1) × (epoch ≡ r.current_epoch)
unfolding takeover check_epoch
takeover_epoch epoch r h k = ground arith

not_below : {a b c : ℕ} → a ≡ c → b ≡ a + 1 → b ≤ c → ⊥
not_below p q r = omega arith

-- Once a human has taken a run over, nothing that is done with the runtime's epoch succeeds again,
-- whatever has happened to the run in between, as long as the epoch stays below 2 ^ 64: each such
-- operation fails and changes nothing.
pub takeover_fences :
    (epoch : ℕ) (r : Run) (es : List Event) (op : Control)
    → r.current_epoch + 1 + length es < 2 ^ 64
    → is_ok (takeover epoch r).0 ≡ true
    → let s = steps es (takeover epoch r).1 in
      (is_ok (perform op epoch s).0 ≡ false) × ((perform op epoch s).1 ≡ s)
takeover_fences epoch r es op h k =
    let (a, b) = takeover_epoch epoch r (omega arith) k in
    let c = steps_epoch es (takeover epoch r).1 (omega (arith, a, b)) in
    let (p, q, u) = perform_exact op epoch (steps es (takeover epoch r).1) in
    elim (Bool-cases (is_ok (perform op epoch (steps es (takeover epoch r).1)).0)) [
      | inl t ↦ elim (not_below (p.0 t).0 a c) [ ]
      | inr f ↦ (f, u f)
    ]

step_ended : (e : Event) (r : Run) → is_terminal r.state ≡ true → step e r ≡ r
unfolding step perform pause resume takeover complete abort check_epoch start_attempt
step_ended (operate pausing epoch) r h = ground arith
step_ended (operate resuming epoch) r h = ground arith
step_ended (operate taking_over epoch) r h = ground arith
step_ended (operate completing epoch) r h = ground arith
step_ended (operate aborting epoch) r h = ground arith
step_ended (attempt id now) r h = ground arith

-- A run that was completed or aborted is never changed again.
pub steps_ended : (es : List Event) (r : Run) → is_terminal r.state ≡ true → steps es r ≡ r
unfolding steps
steps_ended [] r h = refl
steps_ended (e ∷ es) r h = let q = step_ended e r h in rw (q, steps_ended es r h)
