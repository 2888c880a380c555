-- ===== src/Action/Examples.antt =====
-- Operations, requests and a provider at concrete values.
use engineering_platform.Prelude.{
  Context, Option, String, [], background, empty, insert, string_eq, ok, refl, true, ℕ, ◌+◌, ◌>>=◌,
  ◌↔◌, ◌∷◌, ◌≡◌, ◌≢◌, ◌⊎◌,
}
use engineering_platform.Action.{
  Operation, Request, confirmed, controlled_mutation, dispatched, manual, new_operation, observe,
  planned, reconciling, safe_to_retry, same_reservation, transition, unknown, valid_step,
}
use engineering_platform.Action.Ledger.{
  Edge, Steps, ambiguous-never_settled, here, next, transition-Edge,
}
use engineering_platform.Action.Repository.{
  MemoryRepository, create_context, get_by_idempotency_key_context, get_context, memory_repository,
  new_memory_repository, update_context,
}
use engineering_platform.Action.Repository.Laws.{
  History-IsIndexed, IsIndexed, created, memory_repository-IsLedger, new,
}
use engineering_platform.Action.Service.{
  Service, World, call_dispatch, call_reconcile, dispatch_confirmed, dispatch_reserved,
  dispatch_verdict, execute, identity, reconcile, reconcile_manual, reconcile_verdict, reserve,
  settle, settle_external_effect,
}
use engineering_platform.Action.Service.Execution.{Told, execute-Told}
use engineering_platform.Action.Service.Dispatches.{execute-AskedOnce_lem}
use engineering_platform.Action.Service.Authority.{Allowed, execute-Allowed}
use engineering_platform.Action.Service.Reconciliation.{Observed, reconcile-ObservedOnce_lem}

abbrev request : Request
request = record {
  id = "request-1";
  run_id = "run-1";
  execution_epoch = 1;
  recovery_epoch = 0;
  action = "publish";
  risk_class = controlled_mutation;
  capability = "github";
  parameters_digest = "digest";
  idempotency_key = "key-1";
  requested_by = "runtime";
  requested_at = 5;
}

abbrev planned_operation : Operation
planned_operation = record {
  id = "request-1";
  run_id = "run-1";
  execution_epoch = 1;
  recovery_epoch = 0;
  action = "publish";
  risk_class = controlled_mutation;
  capability = "github";
  idempotency_key = "key-1";
  request_digest = "request-1";
  state = planned;
  updated_at = 5;
  external_ref = "";
  observed_state = "";
}

abbrev unknown_operation : Operation
unknown_operation = record planned_operation { state = unknown }

abbrev clock : ℕ → ℕ
clock n = 10 + n

abbrev contexts : ℕ → Context
contexts n = background

-- A provider that confirms what it is asked, behind guards that grant everything.
abbrev service : Service MemoryRepository
service = record {
  configured = true;
  can_reconcile = true;
  authorize = λ ctx req s. ok tt;
  check_run_epoch = λ ctx id epoch s. ok tt;
  check_recovery_epoch = λ ctx epoch risk s. ok tt;
  dispatch = λ calls req.
      ok (record { outcome = dispatch_confirmed; external_ref = "ref"; observed_state = "DONE" });
  observe_effect = λ seen op.
      ok (record { outcome = reconcile_manual; external_ref = "ref"; observed_state = "SEEN" });
  repository = memory_repository;
  request_digest = λ i. ok i.id;
}

abbrev world : World MemoryRepository
world = record { ledger = new_memory_repository; dispatches = []; observations = [] }

abbrev view : MemoryRepository → String → Option Operation
view r = r.items

execute-Told_example :
    let (r, w') = execute service contexts clock request world in
    (w'.dispatches ≡ []) ⊎ ((w'.dispatches ≡ request ∷ []) × Told view request r w')
execute-Told_example =
    execute-Told service view contexts clock request world memory_repository-IsLedger

execute-Allowed_example :
    ((execute service contexts clock request world).1.dispatches ≡ [])
    ⊎ Allowed service contexts clock request new_memory_repository []
execute-Allowed_example =
    execute-Allowed service view contexts clock request world memory_repository-IsLedger

execute-AskedOnce_lem_example :
    let w' = (execute service contexts clock request world).1 in
    ((w'.dispatches ≡ []) ⊎ (w'.dispatches ≡ request ∷ [])) × (w'.observations ≡ [])
execute-AskedOnce_lem_example = execute-AskedOnce_lem service contexts clock request world

-- The operation waits for its reconciliation.
abbrev waiting : World MemoryRepository
waiting = record world {
  ledger = record {
    items = insert "request-1" unknown_operation empty;
    idempotency = insert "key-1" "request-1" empty;
  };
}

reconcile-ObservedOnce_lem_example :
    let w' = (reconcile service contexts clock "request-1" waiting).1 in
    (w'.dispatches ≡ [])
    × ((w'.observations ≡ [])
        ⊎ ((op : Operation) × (w'.observations ≡ op ∷ [])
            × Observed service view contexts op w'.ledger))
reconcile-ObservedOnce_lem_example =
    reconcile-ObservedOnce_lem service view contexts clock "request-1" waiting
      memory_repository-IsLedger

-- The provider is in fact asked to observe it.
reconcile_observes :
    (reconcile service contexts clock "request-1" waiting).1.observations
    ≡ record unknown_operation { state = reconciling; updated_at = 11 } ∷ []
unfolding reconcile call_reconcile settle settle_external_effect reconcile_verdict transition
    valid_step same_reservation get_context update_context ◌>>=◌
reconcile_observes = refl

-- The provider is in fact asked.
execute_dispatches : (execute service contexts clock request world).1.dispatches ≡ request ∷ []
unfolding execute reserve dispatch_reserved call_dispatch settle settle_external_effect
    dispatch_verdict new_operation identity transition valid_step same_reservation create_context
    get_by_idempotency_key_context update_context new_memory_repository ◌>>=◌
execute_dispatches = refl

controlled_is_not_observe : controlled_mutation ≢ observe
controlled_is_not_observe e = cc

abbrev reconciling_operation : Operation
reconciling_operation = (transition reconciling 6 unknown_operation).1

abbrev manual_operation : Operation
manual_operation = (transition manual 7 reconciling_operation).1

manual-Steps : Steps unknown_operation manual_operation
unfolding transition valid_step
manual-Steps = next manual 7 (next reconciling 6 here refl) refl

ambiguous-never_settled_example :
    (manual_operation.state ≢ confirmed)
    × (manual_operation.state ≢ safe_to_retry)
    × (manual_operation.state ≢ planned)
ambiguous-never_settled_example =
    ambiguous-never_settled controlled_is_not_observe refl manual-Steps

transition-Edge_example :
    (((transition dispatched 6 planned_operation).0 ≡ ok tt)
      ↔ Edge controlled_mutation planned dispatched)
    × ((transition dispatched 6 planned_operation).0 ≡ ok tt
        → (transition dispatched 6 planned_operation).1
          ≡ record planned_operation { state = dispatched; updated_at = 6 })
    × ((transition dispatched 6 planned_operation).0 ≢ ok tt
        → (transition dispatched 6 planned_operation).1 ≡ planned_operation)
transition-Edge_example = transition-Edge dispatched 6 planned_operation

dispatched_ok : (transition dispatched 6 planned_operation).0 ≡ ok tt
unfolding transition valid_step
dispatched_ok = refl

History-IsIndexed_example :
    IsIndexed (create_context background planned_operation new_memory_repository).1
History-IsIndexed_example = History-IsIndexed (created background planned_operation new)
