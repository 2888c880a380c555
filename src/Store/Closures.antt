-- ===== src/Store/Closures.antt =====
-- Deliveries, evidence, verification, review and closure (CreateDeliveryContext to the end of
-- memory.go).
use engineering_platform.Verification
use engineering_platform.Review
use engineering_platform.Prelude.{
  Bool, Context, Error, Exec, Option, String, absent, conflict, ctx_err, err, exists, fail_if, find,
  insert, modify, nat_eq, none, not, not_found, ok, some, string_eq, u64, ℕ, ◌!=◌, ◌&&◌, ◌+◌, ◌==◌,
  ◌>>=◌, ◌>>◌, ◌||◌,
}
use engineering_platform.Core.{
  ClosureReceipt, DeliveryReceipt, EvidenceRef, WorkItem, closed, reviewing, verifying,
  work_state_eq,
}
use engineering_platform.Verification.{evidence_artifacts_belong, evidence_matches_plan}
use engineering_platform.Store.{Memory, authorized}

unfoldable pub create_delivery : Context → DeliveryReceipt → Exec Memory Unit
create_delivery ctx item = do
  authorized ctx
  absent (λ m. m.deliveries item.id) exists
  modify λ m. record m { deliveries = insert item.id item m.deliveries }

unfoldable pub get_delivery : Context → String → Exec Memory DeliveryReceipt
get_delivery ctx id = do authorized ctx; find (λ m. m.deliveries id) not_found

unfoldable pub create_evidence : Context → EvidenceRef → Exec Memory Unit
create_evidence ctx item = do
  authorized ctx
  absent (λ m. m.evidence item.id) exists
  delivery ← find (λ m. m.deliveries item.delivery_receipt_id) not_found
  fail_if (item.subject_digest != delivery.subject_digest) conflict
  task ← find (λ m. m.tasks_by_digest delivery.task_contract_digest) not_found
  plan ← find (λ m. m.verification_plans task.verification_plan_digest) not_found
  fail_if (not (evidence_matches_plan plan item) || not (evidence_artifacts_belong delivery item))
      conflict
  modify λ m. record m { evidence = insert item.id item m.evidence }

unfoldable pub get_evidence : Context → String → Exec Memory EvidenceRef
get_evidence ctx id = do authorized ctx; find (λ m. m.evidence id) not_found

unfoldable pub create_verification : Context → Verification.Report → Exec Memory Unit
create_verification ctx report = do
  authorized ctx
  absent (λ m. m.verification_reports report.id) exists
  modify λ m. record m { verification_reports = insert report.id report m.verification_reports }

unfoldable pub get_verification : Context → String → Exec Memory Verification.Report
get_verification ctx id = do authorized ctx; find (λ m. m.verification_reports id) not_found

-- The condition under which `CreateReviewAndUpdateWorkContext` refuses a review.
unfoldable pub review_conflict :
    Review.Report → ℕ → WorkItem → Verification.Report → DeliveryReceipt → WorkItem → Bool
review_conflict report expected_version work verified delivery current =
    current.version != expected_version
    || current.state != verifying
    || (report.result == "PASS" && work.state != reviewing)
    || (report.result == "FAIL" && work.state != verifying)
    || current.id != delivery.work_item_id
    || current.active_run_id != delivery.run_id
    || current.active_task_contract_digest != delivery.task_contract_digest
    || work.active_run_id != current.active_run_id
    || work.active_task_contract_digest != current.active_task_contract_digest
    || report.task_contract_digest != delivery.task_contract_digest
    || report.subject_digest != delivery.subject_digest
    || verified.result != "PASS"
    || verified.delivery_receipt_id != delivery.id
    || verified.subject_digest != delivery.subject_digest
    || report.reviewer == verified.verifier
    || report.reviewer == current.human_owner

abbrev fail_with : Option Error → Exec Memory Unit
fail_with none m = (ok tt, m)
fail_with (some e) m = (err e, m)

-- The copies of the slices that Go makes are the values themselves here.
unfoldable pub create_review_and_update_work :
    Context → Review.Report → ℕ → WorkItem → Exec Memory Unit
create_review_and_update_work ctx report expected_version work = do
  ctx_err ctx 0
  fail_with (Review.validate report)
  ctx_err ctx 1
  absent (λ m. m.review_reports report.id) exists
  absent (λ m. m.review_by_verification report.verification_report_id) exists
  verified ← find (λ m. m.verification_reports report.verification_report_id) not_found
  delivery ← find (λ m. m.deliveries report.delivery_receipt_id) not_found
  current ← find (λ m. m.works work.id) not_found
  fail_if (review_conflict report expected_version work verified delivery current) conflict
  modify λ m. record m {
    review_reports = insert report.id report m.review_reports;
    review_by_verification =
        insert report.verification_report_id report.id m.review_by_verification;
    works = insert work.id (record work { version = u64 (expected_version + 1) }) m.works;
  }

unfoldable pub get_review : Context → String → Exec Memory Review.Report
get_review ctx id = do authorized ctx; find (λ m. m.review_reports id) not_found

-- The condition under which `CreateClosureAndUpdateWorkContext` refuses a closure.
unfoldable pub closure_conflict : ClosureReceipt → ℕ → WorkItem → Review.Report → WorkItem → Bool
closure_conflict item expected_version work report current =
    current.version != expected_version
    || current.state != reviewing
    || work.state != closed
    || report.result != "PASS"
    || report.delivery_receipt_id != item.delivery_receipt_id
    || report.verification_report_id != item.verification_report_id
    || report.task_contract_digest != item.task_contract_digest
    || report.subject_digest != item.subject_digest
    || current.active_run_id != item.run_id
    || current.active_task_contract_digest != item.task_contract_digest
    || work.active_run_id != current.active_run_id
    || work.active_task_contract_digest != current.active_task_contract_digest

unfoldable pub create_closure_and_update_work :
    Context → ClosureReceipt → ℕ → WorkItem → Exec Memory Unit
create_closure_and_update_work ctx item expected_version work = do
  authorized ctx
  absent (λ m. m.closures item.id) exists
  current ← find (λ m. m.works work.id) not_found
  report ← find (λ m. m.review_reports item.review_report_id) not_found
  fail_if (closure_conflict item expected_version work report current) conflict
  modify λ m. record m {
    closures = insert item.id item m.closures;
    works = insert work.id (record work { version = u64 (expected_version + 1) }) m.works;
  }

unfoldable pub get_closure : Context → String → Exec Memory ClosureReceipt
get_closure ctx id = do authorized ctx; find (λ m. m.closures id) not_found
