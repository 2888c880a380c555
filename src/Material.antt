-- ===== src/Material.antt =====
-- internal/material/readiness.go: whether the material of a task suffices to begin it.
mod Needs
mod Examples
use engineering_platform.Prelude.{
  Bool, List, Option, String, [], all_codes, codes, false, if◌then◌else◌, is_empty, len, nat_eq,
  none, not, some, string_eq, upper_is, ℕ, ◌!=◌, ◌&&◌, ◌++◌, ◌==◌, ◌∷◌,
}
use engineering_platform.Canonical.{is_hex, is_lower_hex, strip_prefix}

pub data Status : Type 0 where
  ready blocked degraded : Status

pub record Manifest : Type 0 where
  pub task_type : String
  pub repository : String
  pub base_commit : String
  pub target_id : String
  pub acceptance_criteria : List String
  pub has_authoritative_log : Bool
  pub has_reproduction : Bool
  pub requires_device : Bool
  pub device_id : String
  pub firmware_identity : String
  pub degradation_approved_by : String
  pub degradation_reason : String

pub record Readiness : Type 0 where
  pub status : Status
  pub reasons : List String

-- The loop of `isCanonicalSHA256` behind the prefix.
abbrev is_hex_text : Option (List ℕ) → Bool
is_hex_text none = false
is_hex_text (some cs) = all_codes is_lower_hex cs

unfoldable pub is_canonical_sha256 : String → Bool
is_canonical_sha256 v = len v == 71 && is_hex_text (strip_prefix (codes "sha256:") (codes v))

unfoldable pub is_full_commit : String → Bool
is_full_commit v = len v == 40 && all_codes is_hex (codes v)

abbrev when : Bool → String → List String
when b reason = if b then reason ∷ [] else []

abbrev is_debug : Manifest → Bool
is_debug m = upper_is m.task_type "DEBUG"

abbrev is_device_test : Manifest → Bool
is_device_test m = upper_is m.task_type "DEVICE_TEST"

unfoldable pub hard_reasons : Manifest → List String
hard_reasons m =
    when (m.repository == "") "missing repository"
    ++ (when (not (is_full_commit m.base_commit)) "missing exact full commit SHA"
        ++ (when (is_empty m.acceptance_criteria) "missing acceptance criteria"
            ++ (when (is_device_test m && m.device_id == "")
                  "device test requires exact device identity"
                ++ (when (is_device_test m && not (is_canonical_sha256 m.firmware_identity))
                      "device test requires exact firmware identity"
                    ++ when (m.requires_device && m.device_id == "")
                        "task requires exact device identity"))))

unfoldable pub degradable_reasons : Manifest → List String
degradable_reasons m =
    when (is_debug m && not m.has_authoritative_log && not m.has_reproduction)
      "debug requires authoritative log or reproduction"

unfoldable pub evaluate : Manifest → Readiness
unfolding hard_reasons degradable_reasons
evaluate m =
    if not (is_empty (hard_reasons m))
    then record { status = blocked; reasons = hard_reasons m ++ degradable_reasons m }
    else if is_empty (degradable_reasons m)
    then record { status = ready; reasons = [] }
    else if m.degradation_approved_by != "" && m.degradation_reason != ""
    then record { status = degraded; reasons = degradable_reasons m }
    else record {
      status = blocked;
      reasons = degradable_reasons m ++ "degradation requires approver and reason" ∷ [];
    }
