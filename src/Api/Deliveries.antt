-- ===== src/Api/Deliveries.antt =====
-- Deliveries, evidence and verification (handleCreateDelivery to handleGetVerification of
-- internal/api/server.go).
use engineering_platform.Run
use engineering_platform.Verification
use engineering_platform.Prelude.{
  Bool, Error, Exec, List, Option, Result, String, [], conflict, err, exists, false, http,
  if◌then◌else◌, length, nat_eq, none, not, ok, pure, some, string_eq, true, ℕ, ◌!=◌, ◌&&◌, ◌+◌,
  ◌==◌, ◌>>=◌, ◌>>◌, ◌||◌, ◌∷◌,
}
use engineering_platform.Core.{
  ArtifactRef, DeliveryReceipt, EvidenceRef, TaskContract, work_state_eq,
}
use engineering_platform.Verification.{
  EvidenceRequirement, Plan, evaluate, evidence_artifacts_belong, find_requirement,
}
use engineering_platform.Store.{Memory}
use engineering_platform.Store.Tasks.{get_task_by_digest, get_verification_plan_by_digest}
use engineering_platform.Store.Executions.{get_execution}
use engineering_platform.Store.Closures.{
  create_delivery, create_evidence, create_verification, get_delivery, get_evidence,
  get_verification,
}
use engineering_platform.Api.{
  Net, Reply, answer, call, commit_aware_error, compute, create_error, is_error, public_error,
  refuse_if, store_error,
}

pub record CreateDeliveryRequest : Type 0 where
  pub id : String
  pub run_id : String
  pub result_commit : String
  pub artifacts : List ArtifactRef
  pub known_limits : List String

abbrev is_completed : Run.State → Bool
is_completed Run.completed = true
is_completed _ = false

abbrev pub no_artifacts : List ArtifactRef → Bool
no_artifacts [] = true
no_artifacts (x ∷ xs) = false

-- The loop over the artifacts.
abbrev pub unnamed_artifact : List ArtifactRef → Bool
unnamed_artifact [] = false
unnamed_artifact (x ∷ xs) = x.id == "" || x.digest == "" || unnamed_artifact xs

-- The receipt but its subject's digest.
abbrev pub receipt_of : ℕ → Run.Run → TaskContract → CreateDeliveryRequest → DeliveryReceipt
receipt_of now value task req = record {
  id = req.id;
  work_item_id = task.work_item_id;
  task_contract_digest = value.task_contract_digest;
  run_id = value.id;
  target_id = task.target_id;
  base_commit = task.base_commit;
  result_commit = req.result_commit;
  subject_digest = "";
  artifacts = req.artifacts;
  known_limits = req.known_limits;
  created_at = now;
}

-- The evidence with the delivery it is registered for.
abbrev pub bound_to : DeliveryReceipt → EvidenceRef → EvidenceRef
bound_to delivery item = record item {
  delivery_receipt_id = delivery.id;
  subject_digest = delivery.subject_digest;
}

-- What handleCreateEvidence answers with where the store refuses.
abbrev evidence_error : Error → Error
evidence_error e =
    if is_error exists e
    then public_error 409
    else if is_error conflict e
    then public_error 422
    else commit_aware_error e

abbrev found : Option EvidenceRequirement → Result EvidenceRequirement
found none = err (http 422 "evidence requirement_id is not present in the frozen verification plan")
found (some requirement) = ok requirement

-- The report as handleCreateVerification completes it.
abbrev pub report_of :
    ℕ
    → String
    → String
    → TaskContract
    → Plan
    → DeliveryReceipt
    → List EvidenceRef
    → Verification.Report
report_of now id verifier task plan delivery evidence =
    record (evaluate plan delivery.subject_digest evidence) {
      id = id;
      verification_plan_digest = task.verification_plan_digest;
      delivery_receipt_id = delivery.id;
      verifier = verifier;
      created_at = now;
    }

module _ (net : Net) where
  -- `subject_digest` is CalculateSubjectDigest of internal/core/model.go.
  unfoldable pub handle_create_delivery :
      (DeliveryReceipt → Result String)
      → CreateDeliveryRequest
      → Exec Memory (Reply DeliveryReceipt)
  handle_create_delivery subject_digest req = do
    refuse_if (req.id == "" || req.run_id == "") 400 "delivery_receipt_id and run_id are required"
    (value, _) ← call net 0 store_error (λ ctx. get_execution ctx req.run_id)
    refuse_if (not (is_completed value.state)) 409 "run must be COMPLETED before creating delivery"
    task ← call net 1 store_error (λ ctx. get_task_by_digest ctx value.task_contract_digest)
    refuse_if (req.result_commit == "" && no_artifacts req.artifacts) 400
        "delivery requires result_commit or at least one artifact"
    refuse_if (unnamed_artifact req.artifacts) 400 "artifact_id and digest are required"
    let item = receipt_of net.now value task req
    digest ← compute (λ e. public_error 500) (subject_digest item)
    let signed = record item { subject_digest = digest }
    call net 2 create_error (λ ctx. create_delivery ctx signed)
    answer 201 signed

  unfoldable pub handle_get_delivery : String → Exec Memory (Reply DeliveryReceipt)
  handle_get_delivery id = do
    item ← call net 0 store_error (λ ctx. get_delivery ctx id)
    answer 200 item

  unfoldable pub handle_create_evidence : String → EvidenceRef → Exec Memory (Reply EvidenceRef)
  handle_create_evidence delivery_id given = do
    refuse_if
        (delivery_id == ""
          || given.id == ""
          || given.requirement_id == ""
          || given.issuer == ""
          || given.procedure == ""
          || given.result == "")
        400
        "delivery_receipt_id, evidence_id, requirement_id, issuer, procedure and result are required"
    delivery ← call net 0 store_error (λ ctx. get_delivery ctx delivery_id)
    task ← call net 1 store_error (λ ctx. get_task_by_digest ctx delivery.task_contract_digest)
    plan ←
        call net 2 store_error
          (λ ctx. get_verification_plan_by_digest ctx task.verification_plan_digest)
    requirement ← compute (λ e. e) (found (find_requirement plan given.requirement_id))
    refuse_if
        (given.procedure != requirement.procedure
          || (requirement.issuer != "" && given.issuer != requirement.issuer))
        422 "evidence issuer/procedure does not match the frozen verification requirement"
    let item = bound_to delivery given
    refuse_if (not (evidence_artifacts_belong delivery item)) 422
        "evidence artifact_refs must be unique artifacts from the exact delivery"
    call net 3 evidence_error (λ ctx. create_evidence ctx item)
    answer 201 item

  unfoldable pub handle_get_evidence : String → Exec Memory (Reply EvidenceRef)
  handle_get_evidence id = do
    item ← call net 0 store_error (λ ctx. get_evidence ctx id)
    answer 200 item

  -- The loop over the evidence's ids, the n-th call of the request the first of its reads.
  unfoldable pub read_evidence : ℕ → List String → Exec Memory (List EvidenceRef)
  read_evidence n [] = pure []
  read_evidence n (id ∷ ids) = call net n store_error (λ ctx. get_evidence ctx id) >>= λ item.
      read_evidence (n + 1) ids >>= λ items. pure (item ∷ items)

  unfoldable pub handle_create_verification :
      String → String → String → List String → Exec Memory (Reply Verification.Report)
  unfolding read_evidence
  handle_create_verification report_id delivery_id verifier evidence_ids = do
    refuse_if (report_id == "" || delivery_id == "" || verifier == "") 400
        "verification_report_id, delivery_receipt_id and verifier are required"
    delivery ← call net 0 store_error (λ ctx. get_delivery ctx delivery_id)
    task ← call net 1 store_error (λ ctx. get_task_by_digest ctx delivery.task_contract_digest)
    plan ←
        call net 2 store_error
          (λ ctx. get_verification_plan_by_digest ctx task.verification_plan_digest)
    evidence ← read_evidence 3 evidence_ids
    let report = report_of net.now report_id verifier task plan delivery evidence
    call net (3 + length evidence_ids) create_error (λ ctx. create_verification ctx report)
    answer (if report.result == "PASS" then 201 else 422) report

  unfoldable pub handle_get_verification : String → Exec Memory (Reply Verification.Report)
  handle_get_verification id = do
    report ← call net 0 store_error (λ ctx. get_verification ctx id)
    answer 200 report
