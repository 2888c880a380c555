-- ===== src/Api/Actions.antt =====
-- External actions (handleCreateAction, handleReconcileAction and writeActionError of
-- internal/api/server.go). The gateway is the action service; `none` is a server without one. The
-- handlers run over any ledger; what others do between its calls is part of the ledger, as in
-- Gateway.Interleaved, and is left out where the ledger is the store itself.
pub mod Answers
pub mod Among
mod Examples
use engineering_platform.Action
use engineering_platform.Action.{risk_eq}
use engineering_platform.Prelude.{
  Bool, Context, Error, Exec, Option, Result, String, commit_outcome_unknown, denied, err,
  external_effect_unresolved, http, idempotency_conflict, if◌then◌else◌, nat_eq, none, not_found,
  ok, operation_absent, recovery_mode, recovery_stale_epoch, risk_class, run_stale_epoch, some,
  string_eq, ℕ, ◌==◌, ◌||◌,
}
use engineering_platform.Action.Service.{Service, World, execute, reconcile}
use engineering_platform.Api.{Reply, commit_unknown, is_error, public_error}

pub record CreateActionRequest : Type 0 where
  pub id : String
  pub execution_epoch : ℕ
  pub recovery_epoch : Option ℕ
  pub action : String
  pub risk_class : Action.RiskClass
  pub capability : String
  pub parameters_digest : String
  pub idempotency_key : String
  pub requested_by : String

abbrev pub request_of : ℕ → String → CreateActionRequest → ℕ → Action.Request
request_of now run_id req recovery_epoch = record {
  id = req.id;
  run_id = run_id;
  execution_epoch = req.execution_epoch;
  recovery_epoch = recovery_epoch;
  action = req.action;
  risk_class = req.risk_class;
  capability = req.capability;
  parameters_digest = req.parameters_digest;
  idempotency_key = req.idempotency_key;
  requested_by = req.requested_by;
  requested_at = now;
}

abbrev incomplete : CreateActionRequest → Bool
incomplete req =
    req.id == ""
    || req.execution_epoch == 0
    || req.action == ""
    || req.risk_class == Action.other ""
    || req.capability == ""
    || req.parameters_digest == ""
    || req.idempotency_key == ""
    || req.requested_by == ""

abbrev incomplete_text : String
incomplete_text =
    "action_request_id, execution_epoch, recovery_epoch, action, risk_class, capability, parameters_digest, idempotency_key and requested_by are required"

abbrev no_gateway : Error
no_gateway = http 503 "action gateway provider is not configured"

-- `writeActionError`
unfoldable pub action_error : Error → Error
action_error e =
    if is_error commit_outcome_unknown e
    then commit_unknown
    else if is_error external_effect_unresolved e
    then http 503 "external_effect_unresolved"
    else if is_error denied e
    then public_error 403
    else if is_error idempotency_conflict e
    then public_error 409
    else if is_error operation_absent e || is_error not_found e
    then public_error 404
    else if is_error run_stale_epoch e
        || is_error recovery_stale_epoch e
        || is_error recovery_mode e
    then public_error 409
    else public_error 422

abbrev pub replied : {A : Type 0} → ℕ → Result A → Result (Reply A)
replied status (ok a) = ok (record { status = status; body = a })
replied status (err e) = err (action_error e)

module _ {S : Type 0} (ctx : ℕ → Context) (clock : ℕ → ℕ) where
  abbrev pub execute_with : Service S → Action.Request → Exec (World S) (Reply Action.Receipt)
  execute_with svc req w = let (r, w') = execute svc ctx clock req w in (replied 202 r, w')

  abbrev pub execute_complete :
      Service S
      → ℕ
      → String
      → CreateActionRequest
      → Option ℕ
      → Exec (World S) (Reply Action.Receipt)
  execute_complete svc now run_id req none w = (err (http 400 incomplete_text), w)
  execute_complete svc now run_id req (some epoch) w =
      if incomplete req
      then (err (http 400 incomplete_text), w)
      else execute_with svc (request_of now run_id req epoch) w

  unfoldable pub handle_create_action :
      Option (Service S) → ℕ → String → CreateActionRequest → Exec (World S) (Reply Action.Receipt)
  handle_create_action none now run_id req w = (err no_gateway, w)
  handle_create_action (some svc) now run_id req w =
      execute_complete svc now run_id req req.recovery_epoch w

  unfoldable pub handle_reconcile_action :
      Option (Service S) → String → Exec (World S) (Reply Action.Receipt)
  handle_reconcile_action none id w = (err no_gateway, w)
  handle_reconcile_action (some svc) id w =
      let (r, w') = reconcile svc ctx clock id w in (replied 200 r, w')
