-- ===== src/Run/Examples.antt =====
-- A run at concrete values.
use engineering_platform.Prelude.{[], arith, false, is_ok, refl, true, ◌↔◌, ◌∷◌, ◌≡◌, ◌≤◌}
use engineering_platform.Run.{Run, check_epoch, completed, is_terminal, paused, running, takeover}
use engineering_platform.Run.Fencing.{
  attempt, completing, operate, pausing, perform, perform_exact, steps, steps_epoch,
  takeover_fences, taking_over,
}

abbrev started : Run
started = record {
  id = "run-1";
  task_contract_digest = "task";
  run_input_manifest_digest = "input";
  state = running;
  version = 1;
  current_epoch = 1;
  current_attempt_id = "attempt-1";
  control_owner = "RUNTIME";
}

taken_over : is_ok (takeover 1 started).0 ≡ true
unfolding takeover check_epoch
taken_over = refl

takeover_fences_example :
    let s = steps (attempt "attempt-2" 9 ∷ []) (takeover 1 started).1 in
    (is_ok (perform completing 1 s).0 ≡ false) × ((perform completing 1 s).1 ≡ s)
takeover_fences_example =
    takeover_fences 1 started (attempt "attempt-2" 9 ∷ []) completing (omega arith) taken_over

perform_exact_example :
    ((is_ok (perform pausing 1 started).0 ≡ true)
      ↔ ((1 ≡ started.current_epoch) × (is_terminal started.state ≡ false)))
    × (is_ok (perform pausing 1 started).0 ≡ true → (perform pausing 1 started).1.state ≡ paused)
    × (is_ok (perform pausing 1 started).0 ≡ false → (perform pausing 1 started).1 ≡ started)
perform_exact_example = perform_exact pausing 1 started

steps_epoch_example : 1 ≤ (steps (operate taking_over 1 ∷ []) started).current_epoch
steps_epoch_example = steps_epoch (operate taking_over 1 ∷ []) started (omega arith)

abbrev ended : Run
ended = record started { state = completed }
