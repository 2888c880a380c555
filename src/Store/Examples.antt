-- ===== src/Store/Examples.antt =====
-- A store that a delivery is closed in, at concrete values.
use engineering_platform.Verification
use engineering_platform.Review
use engineering_platform.Prelude.{
  List, String, [], arith, inr, background, bounded, contains, false, is_ok, nat_eq, none, ok, refl,
  some, string_eq, true, ◌>>=◌, ◌∷◌, ◌≡◌,
}
use engineering_platform.Canonical.{valid_digest}
use engineering_platform.Core.{
  ClosureReceipt, DeliveryReceipt, RunInputManifest, TaskContract, WorkItem, closed, reviewing,
  validate_context_refs, verifying, work_state_eq,
}
use engineering_platform.Action.{
  Operation, controlled_mutation, dispatched, planned, risk_eq, state_eq,
}
use engineering_platform.Store.Operations.{create_operation, get_operation, get_operation_by_key}
use engineering_platform.Store.Operations.Reserved.{
  LedgerWrite, create_operation_once, creates, updates, write_all,
}
use engineering_platform.Verification.{Plan}
use engineering_platform.Digests.{Hashing, input_digest}
use engineering_platform.Store.{Memory, new_memory}
use engineering_platform.Store.Works.{create_work, update_work}
use engineering_platform.Store.Works.Versions.{update_work_once}
use engineering_platform.Store.Closures.{
  closure_conflict, create_closure_and_update_work, create_delivery, create_review_and_update_work,
  create_verification, review_conflict,
}
use engineering_platform.Store.Commands.{
  Command, Reachable, after, apply, create_closure_command, create_delivery_command,
  create_execution_command, create_review_command, create_task_command, create_verification_command,
  create_work_command, start, update_work_command,
}
use engineering_platform.Store.Commands.Atomic.{apply_failed}
use engineering_platform.Store.Trail.{Advances}
use engineering_platform.Store.Trail.Always.{Behind, apply-Advances, closure-Backed}
use engineering_platform.Store.Tasks.{
  check_frozen, check_new, create_task, enter_task, plan_agrees, revisions_before,
}
use engineering_platform.Store.Frozen.{Frozen}
use engineering_platform.Store.Frozen.Always.{Reachable-Frozen}
use engineering_platform.Run.{Run, running}
use engineering_platform.Session.{Session, runtime}
use engineering_platform.Store.Executions.{create_execution}

abbrev hashing : Hashing
hashing = record {
  hash_task = λ t. ok t.id;
  hash_plan = λ p. ok p.id;
  hash_input = λ i. ok i.run_id;
  hash_checkpoint = λ c. ok c.run_id;
}

abbrev task_digest : String
task_digest = "sha256:0000000000000000000000000000000000000000000000000000000000000000"

abbrev subject : String
subject = "sha256:1111111111111111111111111111111111111111111111111111111111111111"

abbrev item : WorkItem
item = record {
  id = "work-1";
  title = "title";
  source_ref = "issue";
  human_owner = "owner";
  target_id = "target";
  assurance_class = "STANDARD";
  active_task_contract_digest = task_digest;
  active_run_id = "run-1";
  state = verifying;
  version = 1;
  created_at = 3;
}

abbrev delivery : DeliveryReceipt
delivery = record {
  id = "delivery-1";
  work_item_id = "work-1";
  task_contract_digest = task_digest;
  run_id = "run-1";
  target_id = "target";
  base_commit = "base";
  result_commit = "result";
  subject_digest = subject;
  artifacts = [];
  known_limits = [];
  created_at = 7;
}

abbrev verification : Verification.Report
verification = record {
  id = "verification-1";
  delivery_receipt_id = "delivery-1";
  plan_id = "plan-1";
  verification_plan_digest = "plan";
  subject_digest = subject;
  result = "PASS";
  verifier = "verifier";
  criteria = [];
  evidence_ids = [];
  created_at = 8;
}

abbrev review : Review.Report
review = record {
  id = "review-1";
  delivery_receipt_id = "delivery-1";
  verification_report_id = "verification-1";
  task_contract_digest = task_digest;
  subject_digest = subject;
  reviewer = "reviewer";
  result = "PASS";
  findings = [];
  known_limits = [];
  created_at = 9;
}

abbrev closure : ClosureReceipt
closure = record {
  id = "closure-1";
  work_item_id = "work-1";
  task_contract_digest = task_digest;
  run_id = "run-1";
  delivery_receipt_id = "delivery-1";
  verification_report_id = "verification-1";
  review_report_id = "review-1";
  subject_digest = subject;
  result = "CLOSED";
  created_at = 10;
}

abbrev call : Command → Memory → Memory
call c m = (apply hashing background c m).1

abbrev with_work : Memory
with_work = call (create_work_command item) new_memory

abbrev with_delivery : Memory
with_delivery = call (create_delivery_command delivery) with_work

abbrev with_verification : Memory
with_verification = call (create_verification_command verification) with_delivery

abbrev reviewed : Command
reviewed = create_review_command review 1 (record item { state = reviewing })

abbrev with_review : Memory
with_review = call reviewed with_verification

abbrev closing : Command
closing = create_closure_command closure 2 (record item { state = closed })

abbrev with_closure : Memory
with_closure = call closing with_review

reached : Reachable hashing with_closure
reached = after background closing (
    after background reviewed (
      after background (create_verification_command verification) (
        after background (create_delivery_command delivery)
          (after background (create_work_command item) start))))

closed_there : with_closure.closures "closure-1" ≡ some closure
unfolding apply new_memory create_work create_delivery create_verification
    create_review_and_update_work create_closure_and_update_work review_conflict closure_conflict
    Review.validate valid_digest bounded contains ◌>>=◌
closed_there = refl

closure-Backed_example : Behind with_closure closure
closure-Backed_example = closure-Backed hashing "closure-1" closure reached closed_there

apply-Advances_example : Advances with_review with_closure
apply-Advances_example = apply-Advances hashing background with_review closing

-- The work item has another version by now.
refused : is_ok (apply hashing background (update_work_command "work-1" 7 item) with_work).0 ≡ false
unfolding apply new_memory create_work update_work ◌>>=◌
refused = refl

apply_failed_example : call (update_work_command "work-1" 7 item) with_work ≡ with_work
apply_failed_example =
    apply_failed hashing background with_work (update_work_command "work-1" 7 item) refused

updated : is_ok (update_work background "work-1" 1 item with_work).0 ≡ true
unfolding apply new_memory create_work update_work ◌>>=◌
updated = refl

update_work_once_example :
    let s = (update_work background "work-1" 1 item with_work).1 in
    (is_ok (update_work background "work-1" 1 (record item { title = "other" }) s).0 ≡ false)
    × ((update_work background "work-1" 1 (record item { title = "other" }) s).1 ≡ s)
update_work_once_example =
    update_work_once background background "work-1" 1 item (record item { title = "other" })
      with_work (omega arith) updated

abbrev plan : Plan
plan = record {
  id = "plan-1";
  criteria =
      record {
        id = "c1";
        statement = "it works";
        requirements = record { id = "tests"; procedure = "go test"; issuer = "" } ∷ [];
      }
      ∷ [];
}

abbrev task : TaskContract
task = record {
  id = "task-1";
  work_item_id = "work-1";
  task_type = "change";
  capability_ids = [];
  skill_ids = [];
  skill_contract_digest = "";
  skill_guidance_version = 0;
  repository = "repository";
  base_commit = "base";
  target_id = "target";
  target_platform = "linux";
  acceptance_criteria = "it works" ∷ [];
  allowed_actions = [];
  expected_outputs = [];
  verification_plan_id = "plan-1";
  verification_plan_digest = "plan-1";
  revision = 1;
}

abbrev with_task : Memory
with_task = call (create_task_command task plan) new_memory

-- The task is there, under its digest.
task_there : with_task.tasks_by_digest "task-1" ≡ some task
unfolding apply new_memory create_task check_frozen check_new plan_agrees revisions_before
    enter_task ◌>>=◌
task_there = refl

Reachable-Frozen_example : Frozen hashing with_task
Reachable-Frozen_example =
    Reachable-Frozen hashing (after background (create_task_command task plan) start)

abbrev run : Run
run = record {
  id = "run-1";
  task_contract_digest = "task-1";
  run_input_manifest_digest = "run-1";
  state = running;
  version = 0;
  current_epoch = 1;
  current_attempt_id = "attempt-1";
  control_owner = "RUNTIME";
}

abbrev session : Session
session = record {
  run_id = "run-1";
  execution_epoch = 1;
  owner = runtime;
  last_sequence = 0;
  paused = false;
}

abbrev input : RunInputManifest
input = record {
  continuation = none;
  run_id = "run-1";
  task_contract_digest = "task-1";
  context_refs = [];
  runtime_profile = "";
  tool_profile = "";
  worker_profile = "";
  policy_profile = "";
}

abbrev with_run : Memory
with_run = call (create_execution_command run session input) new_memory

-- The run is there, with its first version.
run_there : with_run.runs "run-1" ≡ some (record run { version = 1 })
unfolding apply new_memory create_execution input_digest validate_context_refs ◌>>=◌
run_there = refl

abbrev action_operation : Operation
action_operation = record {
  id = "action-1";
  run_id = "run-1";
  execution_epoch = 1;
  recovery_epoch = 0;
  action = "publish";
  risk_class = controlled_mutation;
  capability = "github";
  idempotency_key = "key-1";
  request_digest = "digest";
  state = planned;
  updated_at = 5;
  external_ref = "";
  observed_state = "";
}

-- The operation is dispatched and another one is created, before its key is used again.
abbrev ledger_writes : List LedgerWrite
ledger_writes =
    updates background (record action_operation { state = dispatched; updated_at = 6 })
    ∷ creates background (record action_operation { id = "action-2"; idempotency_key = "key-2" })
    ∷ []

abbrev reserved : Memory
reserved = (create_operation background action_operation new_memory).1

action_created : is_ok (create_operation background action_operation new_memory).0 ≡ true
unfolding create_operation new_memory ◌>>=◌
action_created = refl

create_operation_once_example :
    let again = record action_operation { id = "action-3" } in
    let later = write_all ledger_writes reserved in
    (new_memory.operations "action-1" ≡ none)
    × (new_memory.action_idempotency "key-1" ≡ none)
    × (get_operation background "action-1" reserved ≡ (ok action_operation, reserved))
    × (get_operation_by_key background "key-1" reserved ≡ (ok action_operation, reserved))
    × (is_ok (create_operation background again later).0 ≡ false)
    × ((create_operation background again later).1 ≡ later)
create_operation_once_example =
    create_operation_once background background action_operation
      (record action_operation { id = "action-3" }) new_memory ledger_writes action_created
      (inr refl)
