-- ===== src/Material/Examples.antt =====
-- The material of a test on a device.
use engineering_platform.Prelude.{[], false, true, ◌↔◌, ◌∷◌, ◌≢◌, ◌⊎◌}
use engineering_platform.Material.{Manifest, blocked, evaluate}
use engineering_platform.Material.Needs.{Equipped, Observable, evaluate-blocked}

abbrev manifest : Manifest
manifest = record {
  task_type = "device_test";
  repository = "repository";
  base_commit = "0123456789012345678901234567890123456789";
  target_id = "target";
  acceptance_criteria = "it works" ∷ [];
  has_authoritative_log = false;
  has_reproduction = false;
  requires_device = true;
  device_id = "device-1";
  firmware_identity = "sha256:0000000000000000000000000000000000000000000000000000000000000000";
  degradation_approved_by = "";
  degradation_reason = "";
}

evaluate-blocked_example : ((evaluate manifest).status ≢ blocked) ↔ (
    Equipped manifest
    × (Observable manifest
        ⊎ ((manifest.degradation_approved_by ≢ "") × (manifest.degradation_reason ≢ ""))))
evaluate-blocked_example = evaluate-blocked manifest
