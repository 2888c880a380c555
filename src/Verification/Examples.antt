-- ===== src/Verification/Examples.antt =====
-- A plan, evidence and a delivery at concrete values.
use engineering_platform.Prelude.{
  All, String, [], contains, nat_eq, refl, string_eq, true, ◌↔◌, ◌∷◌, ◌≡◌, ◌≢◌,
}
use engineering_platform.Core.{DeliveryReceipt, EvidenceRef, work_state_eq}
use engineering_platform.Verification.{
  Criterion, EvidenceRequirement, Plan, criterion_result, evaluate, evidence_artifacts_belong,
  evidence_matches_requirement, requirement_satisfied, supports,
}
use engineering_platform.Verification.Verdict.{Fulfilled, evaluate_exact}

abbrev requirement : EvidenceRequirement
requirement = record { id = "tests"; procedure = "go test"; issuer = "ci" }

abbrev criterion : Criterion
criterion = record { id = "c1"; statement = "it works"; requirements = requirement ∷ [] }

abbrev plan : Plan
plan = record { id = "plan-1"; criteria = criterion ∷ [] }

abbrev evidence : EvidenceRef
evidence = record {
  id = "evidence-1";
  delivery_receipt_id = "delivery-1";
  requirement_id = "tests";
  subject_digest = "subject";
  issuer = "ci";
  procedure = "go test";
  result = "PASS";
  artifact_refs = "log" ∷ [];
  applicable = true;
}

abbrev delivery : DeliveryReceipt
delivery = record {
  id = "delivery-1";
  work_item_id = "work-1";
  task_contract_digest = "task";
  run_id = "run-1";
  target_id = "target";
  base_commit = "base";
  result_commit = "result";
  subject_digest = "subject";
  artifacts = record { id = "log"; digest = "d"; media_type = "text/plain"; locator = "l" } ∷ [];
  known_limits = [];
  created_at = 7;
}

abbrev subject : String
subject = "subject"

evaluate_exact_example : ((evaluate plan subject (evidence ∷ [])).result ≡ "PASS") ↔ (
    (subject ≢ "") × (plan.criteria ≢ []) × All (Fulfilled subject (evidence ∷ [])) plan.criteria)
evaluate_exact_example = evaluate_exact plan subject (evidence ∷ [])

passes : (evaluate plan subject (evidence ∷ [])).result ≡ "PASS"
unfolding evaluate criterion_result requirement_satisfied supports evidence_matches_requirement
passes = refl

belongs : evidence_artifacts_belong delivery evidence ≡ true
unfolding evidence_artifacts_belong contains
belongs = refl
