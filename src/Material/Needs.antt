-- ===== src/Material/Needs.antt =====
-- What the readiness of a task says (internal/material/readiness.go).
-- What a task needs: a repository, a full commit and criteria, a device where the task calls for
-- one, and the firmware's digest for a test on a device.
use engineering_platform.Prelude.{
  ==_iff, [], arith, false, nat_eq, string_eq, true, upper_is, ◌↔◌, ◌≡◌, ◌≢◌, ◌⊎◌,
}
use engineering_platform.Material.{
  Manifest, blocked, degradable_reasons, evaluate, hard_reasons, is_canonical_sha256,
  is_full_commit,
}

abbrev pub Equipped : Manifest → Type 0
Equipped m =
    (m.repository ≢ "")
    × (is_full_commit m.base_commit ≡ true)
    × (m.acceptance_criteria ≢ [])
    × ((upper_is m.task_type "DEVICE_TEST" ≡ true) ⊎ (m.requires_device ≡ true) → m.device_id ≢ "")
    × (upper_is m.task_type "DEVICE_TEST" ≡ true → is_canonical_sha256 m.firmware_identity ≡ true)

-- What a task that debugs needs beside.
abbrev pub Observable : Manifest → Type 0
Observable m =
    (upper_is m.task_type "DEBUG" ≡ false)
    ⊎ (m.has_authoritative_log ≡ true)
    ⊎ (m.has_reproduction ≡ true)

hard_reasons_exact : (m : Manifest) → (hard_reasons m ≡ []) ↔ Equipped m
unfolding hard_reasons
hard_reasons_exact m = ground (arith, ==_iff m.repository "", ==_iff m.device_id "")

degradable_reasons_exact : (m : Manifest) → (degradable_reasons m ≡ []) ↔ Observable m
unfolding degradable_reasons
degradable_reasons_exact m = ground arith

-- A task is not blocked exactly when it is equipped and, if it debugs, has a log or a reproduction
-- or an approver and a reason to go without.
pub evaluate-blocked :
    (m : Manifest)
    → ((evaluate m).status ≢ blocked) ↔ (
        Equipped m
        × (Observable m ⊎ ((m.degradation_approved_by ≢ "") × (m.degradation_reason ≢ ""))))
unfolding evaluate
evaluate-blocked m = ground (
  arith,
  hard_reasons_exact m,
  degradable_reasons_exact m,
  ==_iff m.degradation_approved_by "",
  ==_iff m.degradation_reason "",
)
