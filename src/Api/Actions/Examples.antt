-- ===== src/Api/Actions/Examples.antt =====
-- An action that a client asks for, at concrete values.
use engineering_platform.Action
use engineering_platform.Run
use engineering_platform.Session
use engineering_platform.Prelude.{
  [], background, empty, insert, nat_eq, ok, some, string_eq, true, ℕ, ◌+◌, ◌∷◌,
}
use engineering_platform.Action.Service.{Service, World, dispatch_confirmed, reconcile_manual}
use engineering_platform.Store.{Memory, new_memory}
use engineering_platform.Store.Operations.{create_operation, store_repository}
use engineering_platform.Core.{TaskContract, work_state_eq}
use engineering_platform.Gateway.Interleaved.{Shared, guarded_among, starting}
use engineering_platform.Api.Actions.{CreateActionRequest, handle_create_action, request_of}

abbrev given : CreateActionRequest
given = record {
  id = "request-1";
  execution_epoch = 1;
  recovery_epoch = some 0;
  action = "publish";
  risk_class = Action.controlled_mutation;
  capability = "github";
  parameters_digest = "digest";
  idempotency_key = "key-1";
  requested_by = "runtime";
}

abbrev task : TaskContract
task = record {
  id = "task-1";
  work_item_id = "work-1";
  task_type = "change";
  capability_ids = [];
  skill_ids = [];
  skill_contract_digest = "";
  skill_guidance_version = 0;
  repository = "repository";
  base_commit = "base";
  target_id = "target";
  target_platform = "linux";
  acceptance_criteria = "it works" ∷ [];
  allowed_actions = "publish" ∷ [];
  expected_outputs = [];
  verification_plan_id = "plan-1";
  verification_plan_digest = "plan-1";
  revision = 1;
}

abbrev value : Run.Run
value = record {
  id = "run-1";
  task_contract_digest = "task-1";
  run_input_manifest_digest = "run-1";
  state = Run.running;
  version = 1;
  current_epoch = 1;
  current_attempt_id = "attempt-1";
  control_owner = "RUNTIME";
}

abbrev memory : Memory
memory = record new_memory {
  runs = insert "run-1" value empty;
  sessions = insert "run-1" (Session.new "run-1" 1) empty;
  tasks_by_digest = insert "task-1" task empty;
}

-- A provider that confirms what it is asked.
abbrev service : Service Memory
service = record {
  configured = true;
  can_reconcile = true;
  authorize = λ ctx req s. ok tt;
  check_run_epoch = λ ctx id epoch s. ok tt;
  check_recovery_epoch = λ ctx epoch risk s. ok tt;
  dispatch = λ calls req.
      ok (record { outcome = dispatch_confirmed; external_ref = "ref"; observed_state = "DONE" });
  observe_effect = λ seen op.
      ok (record { outcome = reconcile_manual; external_ref = "ref"; observed_state = "SEEN" });
  repository = store_repository;
  request_digest = λ i. ok i.id;
}

-- Others reserve an action of their own before each call.
abbrev others : ℕ → Memory → Memory
others n m =
    (create_operation background
      (Action.new_operation
        (request_of 3 "run-2" (record given { id = "other"; idempotency_key = "key-2" }) 0) "other"
        3)
      m).1

abbrev after : World Shared
after =
    (handle_create_action (λ n. background) (λ n. 10 + n) (some (guarded_among others service)) 5
      "run-1" given (starting memory [] [])).1
