-- ===== src/Gateway/Examples.antt =====
-- An action that the gateway grants, at concrete values.
use engineering_platform.Run
use engineering_platform.Session
use engineering_platform.Recovery
use engineering_platform.Prelude.{
  [], background, contains, empty, insert, is_ok, nat_eq, ok, refl, string_eq, true, ℕ, ◌+◌, ◌>>=◌,
  ◌∷◌, ◌≡◌, ◌⊎◌,
}
use engineering_platform.Action.{
  Request, controlled_mutation, new_operation, risk_eq, same_reservation, state_eq, transition,
  valid_step,
}
use engineering_platform.Action.Service.{
  Service, World, call_dispatch, dispatch_confirmed, dispatch_reserved, dispatch_verdict, execute,
  identity, reconcile_manual, reserve, settle, settle_external_effect,
}
use engineering_platform.Core.{TaskContract, work_state_eq}
use engineering_platform.Store.{Memory, new_memory}
use engineering_platform.Store.Works.{get_recovery}
use engineering_platform.Store.Tasks.{get_task_by_digest}
use engineering_platform.Store.Executions.{get_execution}
use engineering_platform.Store.Operations.{
  create_operation, get_operation_by_key, store_repository, update_operation,
}
use engineering_platform.Recovery.{authorize_irreversible}
use engineering_platform.Gateway.{authorize, check_recovery_epoch, check_run_epoch}
use engineering_platform.Gateway.Interleaved.{
  Authorized, Live, Shared, Unblocked, execute-Cleared, guarded_among, starting,
}

abbrev request : Request
request = record {
  id = "request-1";
  run_id = "run-1";
  execution_epoch = 1;
  recovery_epoch = 0;
  action = "publish";
  risk_class = controlled_mutation;
  capability = "github";
  parameters_digest = "digest";
  idempotency_key = "key-1";
  requested_by = "runtime";
  requested_at = 5;
}

abbrev task : TaskContract
task = record {
  id = "task-1";
  work_item_id = "work-1";
  task_type = "change";
  capability_ids = [];
  skill_ids = [];
  skill_contract_digest = "";
  skill_guidance_version = 0;
  repository = "repository";
  base_commit = "base";
  target_id = "target";
  target_platform = "linux";
  acceptance_criteria = "it works" ∷ [];
  allowed_actions = "publish" ∷ [];
  expected_outputs = [];
  verification_plan_id = "plan-1";
  verification_plan_digest = "plan-1";
  revision = 1;
}

abbrev value : Run.Run
value = record {
  id = "run-1";
  task_contract_digest = "task-1";
  run_input_manifest_digest = "run-1";
  state = Run.running;
  version = 1;
  current_epoch = 1;
  current_attempt_id = "attempt-1";
  control_owner = "RUNTIME";
}

abbrev memory : Memory
memory = record new_memory {
  runs = insert "run-1" value empty;
  sessions = insert "run-1" (Session.new "run-1" 1) empty;
  tasks_by_digest = insert "task-1" task empty;
}

-- A provider that confirms what it is asked.
abbrev service : Service Memory
service = record {
  configured = true;
  can_reconcile = true;
  authorize = λ ctx req s. ok tt;
  check_run_epoch = λ ctx id epoch s. ok tt;
  check_recovery_epoch = λ ctx epoch risk s. ok tt;
  dispatch = λ calls req.
      ok (record { outcome = dispatch_confirmed; external_ref = "ref"; observed_state = "DONE" });
  observe_effect = λ seen op.
      ok (record { outcome = reconcile_manual; external_ref = "ref"; observed_state = "SEEN" });
  repository = store_repository;
  request_digest = λ i. ok i.id;
}

granted : is_ok (authorize background request memory).0 ≡ true
unfolding authorize get_execution get_task_by_digest new_memory contains Session.new ◌>>=◌
    Recovery.new
granted = refl

-- Others reserve an action of their own before each call.
abbrev others : ℕ → Memory → Memory
others n m =
    (create_operation background
      (new_operation (record request { id = "request-2"; idempotency_key = "key-2" }) "request-2" 3)
      m).1

abbrev after : World Shared
after =
    (execute (guarded_among others service) (λ n. background) (λ n. 10 + n) request
      (starting memory [] [])).1

-- The provider is asked.
dispatches_there : after.dispatches ≡ request ∷ []
unfolding execute reserve dispatch_reserved call_dispatch settle settle_external_effect
    dispatch_verdict new_operation identity transition valid_step same_reservation create_operation
    update_operation get_operation_by_key authorize check_run_epoch check_recovery_epoch
    get_execution get_task_by_digest get_recovery authorize_irreversible Run.check_epoch
    Recovery.check_epoch new_memory contains Session.new ◌>>=◌ Recovery.new
dispatches_there = refl

execute-Cleared_example :
    (after.dispatches ≡ [])
    ⊎ (Authorized request (others 1 (others 0 memory))
        × Live request (others 2 (others 1 (others 0 memory)))
        × Unblocked request (others 3 (others 2 (others 1 (others 0 memory)))))
execute-Cleared_example =
    execute-Cleared others service (λ n. background) (λ n. 10 + n) request memory [] []
