-- ===== src/Gateway.antt =====
-- internal/gateway/authority.go: the authorizer and the guards of the action service, which read the
-- run, its frozen task and the recovery mode from the store.
pub mod Dispatch
pub mod Interleaved
mod Examples
use engineering_platform.Run
use engineering_platform.Recovery
use engineering_platform.Prelude.{
  Bool, Context, Exec, Result, String, action_not_allowed, contains, ctx_err, err, fail_if, false,
  invalid_risk_class, later, lift, nat_eq, not, ok, run_session_epoch_mismatch, sentinel, string_eq,
  true, ℕ, ◌!=◌, ◌==◌, ◌>>=◌, ◌>>◌, ◌||◌,
}
use engineering_platform.Action.{
  Request, RiskClass, controlled_mutation, high_risk, observe, other, risk_eq, state_eq,
}
use engineering_platform.Core.{TaskContract, work_state_eq}
use engineering_platform.Run.{Run}
use engineering_platform.Session.{Session}
use engineering_platform.Recovery.{Manager, authorize_irreversible}
use engineering_platform.Action.Service.{Service}
use engineering_platform.Store.{Memory}
use engineering_platform.Store.Works.{get_recovery}
use engineering_platform.Store.Tasks.{get_task_by_digest}
use engineering_platform.Store.Executions.{get_execution}
use engineering_platform.Store.Operations.{store_repository}

execution : Context → String → Exec Memory (Run × Session)
execution ctx id = do ctx_err ctx 0; get_execution (later 1 ctx) id

frozen_task : Context → String → Exec Memory TaskContract
frozen_task ctx digest = do ctx_err ctx 0; get_task_by_digest (later 1 ctx) digest

recovery_state : Context → Exec Memory Manager
recovery_state ctx = do ctx_err ctx 0; get_recovery (later 1 ctx)

-- The switch over the three classes.
abbrev is_known : RiskClass → Bool
is_known (other s) = false
is_known _ = true

unfoldable pub authorize : Context → Request → Exec Memory Unit
unfolding execution frozen_task
authorize ctx req = do
  ctx_err ctx 0
  fail_if (req.action == "" || req.capability == "") action_not_allowed
  fail_if (not (is_known req.risk_class)) invalid_risk_class
  (value, sess) ← execution (later 1 ctx) req.run_id
  task ← frozen_task (later 4 ctx) value.task_contract_digest
  ctx_err ctx 7
  fail_if (not (contains task.allowed_actions req.action)) action_not_allowed

unfoldable pub check_run_epoch : Context → String → ℕ → Exec Memory Unit
unfolding execution
check_run_epoch ctx run_id epoch = do
  (value, sess) ← execution ctx run_id
  ctx_err ctx 3
  lift (Run.check_epoch value epoch)
  fail_if (value.id != run_id || sess.run_id != run_id || sess.execution_epoch != epoch)
      run_session_epoch_mismatch

abbrev authorize_risk : Manager → ℕ → RiskClass → Result (Unit {0})
authorize_risk state epoch observe = ok tt
authorize_risk state epoch controlled_mutation = authorize_irreversible state epoch
authorize_risk state epoch high_risk = authorize_irreversible state epoch
authorize_risk state epoch (other s) = err (sentinel invalid_risk_class)

unfoldable pub check_recovery_epoch : Context → ℕ → RiskClass → Exec Memory Unit
unfolding recovery_state
check_recovery_epoch ctx epoch risk = do
  state ← recovery_state ctx
  ctx_err ctx 3
  lift (Recovery.check_epoch state epoch)
  lift (authorize_risk state epoch risk)

-- The action service behind this authority, with the store as its ledger. The provider and the
-- digest of requests are those of `svc`.
abbrev pub guarded : Service Memory → Service Memory
guarded svc = record svc {
  authorize = λ ctx req s. (authorize ctx req s).0;
  check_run_epoch = λ ctx run_id epoch s. (check_run_epoch ctx run_id epoch s).0;
  check_recovery_epoch = λ ctx epoch risk s. (check_recovery_epoch ctx epoch risk s).0;
  repository = store_repository;
}
