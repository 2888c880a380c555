-- ===== src/Api/Examples.antt =====
-- A work item from its creation to its closure, by the requests of the server.
use engineering_platform.Material
use engineering_platform.Verification
use engineering_platform.Review
use engineering_platform.Run
use engineering_platform.Session
use engineering_platform.Prelude.{
  All, map, List, String, [], background, bounded, contains, false, if◌then◌else◌, nat_eq, none, ok,
  refl, some, string_eq, true, upper_is, ℕ, ◌==◌, ◌>>=◌, ◌∷◌, ◌≡◌,
}
use engineering_platform.Core.{
  ClosureReceipt, EvidenceRef, RunInputManifest, TaskContract, WorkItem, other, transition,
  validate_context_refs, work_state_eq,
}
use engineering_platform.Digests.{Hashing, input_digest}
use engineering_platform.Verification.{
  evaluate, evidence_artifacts_belong, evidence_matches_plan, find_requirement, validate_plan,
}
use engineering_platform.Routing.{resolve_for_target}
use engineering_platform.Store.{Memory, new_memory}
use engineering_platform.Store.Commands.{Reachable}
use engineering_platform.Store.Works.{create_work, get_work}
use engineering_platform.Store.Tasks.{
  check_frozen, check_new, create_task_and_update_work, enter_task, get_task_by_digest,
  get_verification_plan_by_digest, plan_agrees, revisions_before,
}
use engineering_platform.Store.Executions.{
  create_execution_and_update_work, get_execution, update_execution_and_work,
}
use engineering_platform.Store.Closures.{
  closure_conflict, create_closure_and_update_work, create_delivery, create_evidence,
  create_review_and_update_work, create_verification, get_delivery, get_evidence, get_review,
  get_verification, review_conflict,
}
use engineering_platform.Api.{Net, answer, call, compute, refuse_if}
use engineering_platform.Api.Works.{CreateTaskRequest, handle_create_task, handle_create_work}
use engineering_platform.Api.Runs.{handle_complete_run, handle_create_run, write_execution}
use engineering_platform.Api.Deliveries.{
  handle_create_delivery, handle_create_evidence, handle_create_verification, read_evidence,
}
use engineering_platform.Api.Reviews.{handle_create_closure, handle_create_review}
use engineering_platform.Api.Traffic.{Between, here}
use engineering_platform.Api.Requests.{
  Request, complete_run_request, create_closure_request, create_delivery_request,
  create_evidence_request, create_review_request, create_run_request, create_task_request,
  create_verification_request, create_work_request, serve, serve-Between, Relied, serve_all,
}
use engineering_platform.Api.Closing.{Evidenced, closure-Evidenced}
use engineering_platform.Canonical.{valid_digest}
use engineering_platform.Run.{Run}

abbrev digest_of : String → String
digest_of s =
    if s == "task-1"
    then "sha256:0000000000000000000000000000000000000000000000000000000000000000"
    else s

abbrev subject : String
subject = "sha256:1111111111111111111111111111111111111111111111111111111111111111"

abbrev hashing : Hashing
hashing = record {
  hash_task = λ t. ok (digest_of t.id);
  hash_plan = λ p. ok p.id;
  hash_input = λ i. ok i.run_id;
  hash_checkpoint = λ c. ok c.run_id;
}

-- Nobody else is served.
abbrev quiet : Net
quiet = record { traffic = λ n m. m; context = λ n. background; now = 7 }

abbrev blank_work : WorkItem
blank_work = record {
  id = "work-1";
  title = "title";
  source_ref = "issue";
  human_owner = "owner";
  target_id = "target";
  assurance_class = "STANDARD";
  active_task_contract_digest = "";
  active_run_id = "";
  state = other "";
  version = 0;
  created_at = 0;
}

abbrev plan : Verification.Plan
plan = record {
  id = "plan-1";
  criteria =
      record {
        id = "c1";
        statement = "it works";
        requirements = record { id = "tests"; procedure = "go test"; issuer = "" } ∷ [];
      }
      ∷ [];
}

abbrev manifest : Material.Manifest
manifest = record {
  task_type = "FEATURE";
  repository = "repository";
  base_commit = "0123456789012345678901234567890123456789";
  target_id = "target";
  acceptance_criteria = "it works" ∷ [];
  has_authoritative_log = false;
  has_reproduction = false;
  requires_device = false;
  device_id = "";
  firmware_identity = "";
  degradation_approved_by = "";
  degradation_reason = "";
}

abbrev contract : TaskContract
contract = record {
  id = "task-1";
  work_item_id = "work-1";
  task_type = "FEATURE";
  capability_ids = [];
  skill_ids = [];
  skill_contract_digest = "";
  skill_guidance_version = 0;
  repository = "";
  base_commit = "";
  target_id = "";
  target_platform = "";
  acceptance_criteria = [];
  allowed_actions = [];
  expected_outputs = [];
  verification_plan_id = "";
  verification_plan_digest = "";
  revision = 0;
}

abbrev input : RunInputManifest
input = record {
  continuation = none;
  run_id = "";
  task_contract_digest = "";
  context_refs = [];
  runtime_profile = "runtime";
  tool_profile = "tool";
  worker_profile = "worker";
  policy_profile = "policy";
}

abbrev create_task_request_1 : CreateTaskRequest
create_task_request_1 = record {
  contract = contract;
  manifest = manifest;
  subsystem = "";
  target_context = none;
  verification_plan = plan;
}

abbrev evidence : EvidenceRef
evidence = record {
  id = "evidence-1";
  delivery_receipt_id = "";
  requirement_id = "tests";
  subject_digest = "";
  issuer = "ci";
  procedure = "go test";
  result = "PASS";
  artifact_refs = [];
  applicable = true;
}

abbrev served : Request → Memory → Memory
served = serve hashing quiet (λ skills. ok "skills") (λ item. ok subject)

abbrev requests : List Request
requests =
    create_work_request blank_work
    ∷ create_task_request create_task_request_1
    ∷ create_run_request (record {
      run_id = "run-1";
      task_contract_digest = digest_of "task-1";
      attempt_id = "attempt-1";
      run_input = input;
    })
    ∷ complete_run_request "run-1" 1
    ∷ create_delivery_request (record {
      id = "delivery-1";
      run_id = "run-1";
      result_commit = "result";
      artifacts = [];
      known_limits = [];
    })
    ∷ create_evidence_request "delivery-1" evidence
    ∷ create_verification_request "report-1" "delivery-1" "verifier" ("evidence-1" ∷ [])
    ∷ create_review_request (record {
      id = "review-1";
      delivery_receipt_id = "delivery-1";
      verification_report_id = "report-1";
      reviewer = "reviewer";
      result = "PASS";
      findings = [];
      known_limits = [];
    })
    ∷ create_closure_request (record {
      id = "closure-1";
      delivery_receipt_id = "delivery-1";
      verification_report_id = "report-1";
      review_report_id = "review-1";
    })
    ∷ []

-- Before every call of the request another work item is created, unless it is there.
abbrev busy : Net
busy = record quiet {
  traffic = λ n m. served (create_work_request (record blank_work { id = "work-2" })) m;
}

abbrev requests_served : List (Net × Request)
requests_served = map (λ req. (busy, req)) requests

abbrev with_closure : Memory
with_closure =
    serve_all hashing (λ skills. ok "skills") (λ item. ok subject) requests_served new_memory

abbrev closure : ClosureReceipt
closure = record {
  id = "closure-1";
  work_item_id = "work-1";
  task_contract_digest = digest_of "task-1";
  run_id = "run-1";
  delivery_receipt_id = "delivery-1";
  verification_report_id = "report-1";
  review_report_id = "review-1";
  subject_digest = subject;
  result = "CLOSED";
  created_at = 7;
}

closed_there : with_closure.closures "closure-1" ≡ some closure
unfolding serve handle_create_work handle_create_task handle_create_run handle_complete_run
    handle_create_delivery handle_create_evidence handle_create_verification handle_create_review
    handle_create_closure write_execution read_evidence call refuse_if answer compute
    Material.evaluate Material.is_full_commit resolve_for_target validate_plan
    create_task_and_update_work check_frozen check_new plan_agrees revisions_before enter_task
    create_work new_memory get_work get_task_by_digest get_verification_plan_by_digest input_digest
    transition create_execution_and_update_work validate_context_refs get_execution
    update_execution_and_work create_delivery get_delivery create_evidence get_evidence
    find_requirement evidence_matches_plan evidence_artifacts_belong evaluate create_verification
    get_verification Review.validate create_review_and_update_work get_review review_conflict
    closure_conflict create_closure_and_update_work upper_is contains bounded valid_digest ◌>>=◌
    Run.new Run.start_attempt Run.complete Session.new
closed_there = refl

undisturbed : (n : ℕ) (m : Memory) → Reachable hashing m → Between hashing m (quiet.traffic n m)
undisturbed n m r = here

busy-Relied : Relied hashing busy
busy-Relied n m r =
    serve-Between hashing quiet (λ skills. ok "skills") (λ item. ok subject) undisturbed
      (create_work_request (record blank_work { id = "work-2" })) m r

busy_always :
    (reqs : List Request)
    → All {A = Net × Request} (λ p. Relied hashing p.0) (map (λ req. (busy, req)) reqs)
busy_always [] = tt
busy_always (req ∷ reqs) = (busy-Relied, busy_always reqs)

All-Relied : All {A = Net × Request} (λ p. Relied hashing p.0) requests_served
All-Relied = busy_always requests

closure-Evidenced_example : Evidenced hashing with_closure closure
closure-Evidenced_example =
    closure-Evidenced hashing (λ skills. ok "skills") (λ item. ok subject) requests_served
      "closure-1" closure All-Relied closed_there
