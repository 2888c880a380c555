-- ===== src/Api/Reviews.antt =====
-- Reviews and closures (handleCreateReview to handleGetClosure of internal/api/server.go).
use engineering_platform.Run
use engineering_platform.Verification
use engineering_platform.Review
use engineering_platform.Prelude.{
  Bool, Error, Exec, List, Option, Result, String, err, false, if◌then◌else◌, nat_eq, none, not, ok,
  some, string_eq, true, ℕ, ◌!=◌, ◌==◌, ◌>>=◌, ◌>>◌, ◌||◌,
}
use engineering_platform.Core.{
  ClosureReceipt, DeliveryReceipt, WorkItem, WorkState, closed, reviewing, transition, verifying,
  work_state_eq,
}
use engineering_platform.Store.{Memory}
use engineering_platform.Store.Works.{get_work}
use engineering_platform.Store.Executions.{get_execution}
use engineering_platform.Store.Closures.{
  create_closure_and_update_work, create_review_and_update_work, get_closure, get_delivery,
  get_review, get_verification,
}
use engineering_platform.Api.{
  Net, Reply, answer, call, compute, mutation_error, public_error, refuse_if, store_error,
}

pub record CreateReviewRequest : Type 0 where
  pub id : String
  pub delivery_receipt_id : String
  pub verification_report_id : String
  pub reviewer : String
  pub result : String
  pub findings : List Review.Finding
  pub known_limits : List String

-- The report is no PASS for the delivery's subject.
abbrev pub unverified : Verification.Report → DeliveryReceipt → Bool
unverified report delivery =
    report.result != "PASS"
    || report.delivery_receipt_id != delivery.id
    || report.subject_digest != delivery.subject_digest

-- The work is not in the state `expected` with the delivery as its subject.
abbrev pub not_at : WorkState → WorkItem → DeliveryReceipt → Bool
not_at expected work delivery =
    work.state != expected
    || work.active_task_contract_digest != delivery.task_contract_digest
    || work.active_run_id != delivery.run_id

abbrev pub review_of :
    ℕ → DeliveryReceipt → Verification.Report → CreateReviewRequest → Review.Report
review_of now delivery verified req = record {
  id = req.id;
  delivery_receipt_id = delivery.id;
  verification_report_id = verified.id;
  task_contract_digest = delivery.task_contract_digest;
  subject_digest = delivery.subject_digest;
  reviewer = req.reviewer;
  result = req.result;
  findings = req.findings;
  known_limits = req.known_limits;
  created_at = now;
}

abbrev checked : Option Error → Result (Unit {0})
checked none = ok tt
checked (some e) = err e

-- if report.Result == review.ResultPass { nextWork.Transition(core.WorkReviewing) }
abbrev reviewed : Review.Report → WorkItem → Result (Unit {0}) × WorkItem
reviewed report work = if report.result == "PASS" then transition reviewing work else (ok tt, work)

pub record CreateClosureRequest : Type 0 where
  pub id : String
  pub delivery_receipt_id : String
  pub verification_report_id : String
  pub review_report_id : String

-- The review is no PASS for the verified delivery.
abbrev pub unreviewed : Review.Report → Verification.Report → DeliveryReceipt → Bool
unreviewed reviewed verified delivery =
    reviewed.result != "PASS"
    || reviewed.delivery_receipt_id != delivery.id
    || reviewed.verification_report_id != verified.id
    || reviewed.task_contract_digest != delivery.task_contract_digest
    || reviewed.subject_digest != delivery.subject_digest

abbrev is_completed : Run.State → Bool
is_completed Run.completed = true
is_completed _ = false

abbrev pub closure_of :
    ℕ → DeliveryReceipt → Verification.Report → CreateClosureRequest → ClosureReceipt
closure_of now delivery verified req = record {
  id = req.id;
  work_item_id = delivery.work_item_id;
  task_contract_digest = delivery.task_contract_digest;
  run_id = delivery.run_id;
  delivery_receipt_id = delivery.id;
  verification_report_id = verified.id;
  review_report_id = req.review_report_id;
  subject_digest = delivery.subject_digest;
  result = "CLOSED";
  created_at = now;
}

module _ (net : Net) where
  unfoldable pub handle_create_review : CreateReviewRequest → Exec Memory (Reply Review.Report)
  handle_create_review req = do
    refuse_if
        (req.id == ""
          || req.delivery_receipt_id == ""
          || req.verification_report_id == ""
          || req.reviewer == ""
          || req.result == "")
        400
        "review_report_id, delivery_receipt_id, verification_report_id, reviewer and result are required"
    delivery ← call net 0 store_error (λ ctx. get_delivery ctx req.delivery_receipt_id)
    verified ← call net 1 store_error (λ ctx. get_verification ctx req.verification_report_id)
    refuse_if (unverified verified delivery) 422
        "review requires PASS verification for the exact delivery subject"
    work ← call net 2 store_error (λ ctx. get_work ctx delivery.work_item_id)
    refuse_if (not_at verifying work delivery) 409 "work is not verifying this delivery subject"
    refuse_if (req.reviewer == verified.verifier || req.reviewer == work.human_owner) 422
        "reviewer must be independent from verifier and work owner"
    let report = review_of net.now delivery verified req
    compute (λ e. public_error 422) (checked (Review.validate report))
    let next = reviewed report work
    compute (λ e. public_error 409) next.0
    call net 3 mutation_error (λ ctx. create_review_and_update_work ctx report work.version next.1)
    answer 201 report

  unfoldable pub handle_get_review : String → Exec Memory (Reply Review.Report)
  handle_get_review id = do
    report ← call net 0 store_error (λ ctx. get_review ctx id)
    answer 200 report

  unfoldable pub handle_create_closure : CreateClosureRequest → Exec Memory (Reply ClosureReceipt)
  handle_create_closure req = do
    refuse_if
        (req.id == ""
          || req.delivery_receipt_id == ""
          || req.verification_report_id == ""
          || req.review_report_id == "")
        400
        "closure_receipt_id, delivery_receipt_id, verification_report_id and review_report_id are required"
    delivery ← call net 0 store_error (λ ctx. get_delivery ctx req.delivery_receipt_id)
    verified ← call net 1 store_error (λ ctx. get_verification ctx req.verification_report_id)
    refuse_if (unverified verified delivery) 422
        "closure requires PASS verification for the exact delivery subject"
    review ← call net 2 store_error (λ ctx. get_review ctx req.review_report_id)
    refuse_if (unreviewed review verified delivery) 422
        "closure requires PASS independent review for the exact verified delivery subject"
    (value, _) ← call net 3 store_error (λ ctx. get_execution ctx delivery.run_id)
    refuse_if
        (not (is_completed value.state)
          || value.task_contract_digest != delivery.task_contract_digest)
        409 "delivery does not match a completed run"
    work ← call net 4 store_error (λ ctx. get_work ctx delivery.work_item_id)
    refuse_if (not_at reviewing work delivery) 409 "work is not reviewing this delivery subject"
    let next = transition closed work
    compute (λ e. public_error 409) next.0
    let item = closure_of net.now delivery verified req
    call net 5 mutation_error (λ ctx. create_closure_and_update_work ctx item work.version next.1)
    answer 201 item

  unfoldable pub handle_get_closure : String → Exec Memory (Reply ClosureReceipt)
  handle_get_closure id = do
    item ← call net 0 store_error (λ ctx. get_closure ctx id)
    answer 200 item
