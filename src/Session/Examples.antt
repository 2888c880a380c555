-- ===== src/Session/Examples.antt =====
-- A session at concrete values.
use engineering_platform.Prelude.{[], false, refl, ℕ, ◌∷◌, ◌≡◌}
use engineering_platform.Session.{Session, SteeringCommand, apply_steering, runtime}
use engineering_platform.Session.Order.{steer}

abbrev session : Session
session = record {
  run_id = "run-1";
  execution_epoch = 1;
  owner = runtime;
  last_sequence = 3;
  paused = false;
}

abbrev command : ℕ → SteeringCommand
command n = record {
  id = "command";
  run_id = "run-1";
  execution_epoch = 1;
  sequence = n;
  actor = "owner";
  content_digest = "digest";
  created_at = 5;
}

-- The second command comes too late.
steered : (steer (command 5 ∷ command 4 ∷ command 6 ∷ []) session).0 ≡ 5 ∷ 6 ∷ []
unfolding steer apply_steering
steered = refl
