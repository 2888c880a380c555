-- ===== src/Review/Examples.antt =====
-- A review at concrete values.
use engineering_platform.Prelude.{
  All, Distinct, [], bounded, contains, nat_eq, none, refl, string_eq, ◌<◌, ◌∷◌, ◌≡◌, ◌≤◌, ◌⊎◌,
}
use engineering_platform.Canonical.{valid_digest}
use engineering_platform.Review.{Finding, Report, validate}
use engineering_platform.Review.Acceptance.{Admissible, blocking_of, ids, validate_sound}

abbrev finding : Finding
finding = record { id = "f1"; severity = "BLOCKING"; summary = "it fails" }

abbrev report : Report
report = record {
  id = "review-1";
  delivery_receipt_id = "delivery-1";
  verification_report_id = "verification-1";
  task_contract_digest = "sha256:0000000000000000000000000000000000000000000000000000000000000000";
  subject_digest = "sha256:1111111111111111111111111111111111111111111111111111111111111111";
  reviewer = "reviewer";
  result = "FAIL";
  findings = finding ∷ [];
  known_limits = [];
  created_at = 9;
}

admitted : validate report ≡ none
unfolding validate valid_digest bounded contains
admitted = refl

validate_sound_example :
    (1 ≤ 64)
    × All Admissible (finding ∷ [])
    × Distinct (ids report.findings)
    × (((report.result ≡ "PASS") × (blocking_of (finding ∷ []) ≡ 0))
        ⊎ ((report.result ≡ "FAIL") × (0 < blocking_of (finding ∷ []))))
validate_sound_example = validate_sound report admitted
