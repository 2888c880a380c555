-- ===== src/Gateway/Dispatch.antt =====
-- What stands behind an action that the gateway lets through to the provider.
use engineering_platform.Run
use engineering_platform.Recovery
use engineering_platform.Prelude.{
  Context, Option-cases, arith, contains, false, inl, inr, is_ok, nat_eq, none, some, string_eq,
  true, ℕ, ◌>>=◌, ◌≡◌, ◌≢◌, ◌⊎◌,
}
use engineering_platform.Action.{Request, observe, risk_eq, state_eq}
use engineering_platform.Core.{TaskContract, work_state_eq}
use engineering_platform.Run.{Run, is_terminal}
use engineering_platform.Session.{Session}
use engineering_platform.Recovery.{authorize_irreversible, normal}
use engineering_platform.Action.Service.{Service, World, execute}
use engineering_platform.Action.Service.Authority.{execute-Allowed}
use engineering_platform.Store.{Memory}
use engineering_platform.Store.Works.{get_recovery}
use engineering_platform.Store.Tasks.{get_task_by_digest}
use engineering_platform.Store.Executions.{get_execution}
use engineering_platform.Store.Operations.Ledger.{store_repository-IsLedger}
use engineering_platform.Gateway.{authorize, check_recovery_epoch, check_run_epoch, guarded}

-- The run and its session know the request's epoch, the frozen task allows the action, and a
-- mutation meets no recovery.
pub record Granted (req : Request) (m : Memory) (value : Run) (sess : Session) (task : TaskContract)
    : Type 0 where
  pub run_there : m.runs req.run_id ≡ some value
  pub session_there : m.sessions req.run_id ≡ some sess
  pub task_there : m.tasks_by_digest value.task_contract_digest ≡ some task
  pub action_allowed : contains task.allowed_actions req.action ≡ true
  pub run_epoch : value.current_epoch ≡ req.execution_epoch
  pub run_live : is_terminal value.state ≡ false
  pub session_epoch : sess.execution_epoch ≡ req.execution_epoch
  pub recovery_epoch : m.recovery_state.epoch ≡ req.recovery_epoch
  pub no_recovery : (req.risk_class ≡ observe) ⊎ (m.recovery_state.mode ≡ normal)

module _ (ctx : Context) (req : Request) (m : Memory) where
  pub authorize_reads :
      is_ok (authorize ctx req m).0 ≡ true
      → (m.runs req.run_id ≢ none) × (m.sessions req.run_id ≢ none)
  unfolding authorize get_execution get_task_by_digest ◌>>=◌
  authorize_reads h = ground arith

  pub authorize_task :
      (value : Run) (sess : Session)
      → m.runs req.run_id ≡ some value
      → m.sessions req.run_id ≡ some sess
      → is_ok (authorize ctx req m).0 ≡ true
      → m.tasks_by_digest value.task_contract_digest ≢ none
  unfolding authorize get_execution get_task_by_digest ◌>>=◌
  authorize_task value sess a b h = ground arith

  pub authorize_action :
      (value : Run) (sess : Session) (task : TaskContract)
      → m.runs req.run_id ≡ some value
      → m.sessions req.run_id ≡ some sess
      → m.tasks_by_digest value.task_contract_digest ≡ some task
      → is_ok (authorize ctx req m).0 ≡ true
      → contains task.allowed_actions req.action ≡ true
  unfolding authorize get_execution get_task_by_digest ◌>>=◌
  authorize_action value sess task a b c h = ground arith

  pub check_run_epoch_done :
      (value : Run) (sess : Session)
      → m.runs req.run_id ≡ some value
      → m.sessions req.run_id ≡ some sess
      → is_ok (check_run_epoch ctx req.run_id req.execution_epoch m).0 ≡ true
      → (value.current_epoch ≡ req.execution_epoch)
        × (is_terminal value.state ≡ false)
        × (sess.execution_epoch ≡ req.execution_epoch)
  unfolding check_run_epoch get_execution Run.check_epoch ◌>>=◌
  check_run_epoch_done value sess a b h = ground arith

  pub check_recovery_epoch_done :
      is_ok (check_recovery_epoch ctx req.recovery_epoch req.risk_class m).0 ≡ true
      → (m.recovery_state.epoch ≡ req.recovery_epoch)
        × ((req.risk_class ≡ observe) ⊎ (m.recovery_state.mode ≡ normal))
  unfolding check_recovery_epoch get_recovery Recovery.check_epoch authorize_irreversible ◌>>=◌
  check_recovery_epoch_done h = ground arith

-- Behind the gateway and with nobody else at the store meanwhile, an execution asks the provider only
-- if, in the store that it began in, the run is live under the request's epoch, its session too, the
-- frozen task of the run allows the action, and the recovery epoch is the request's, with no recovery
-- under way unless the action observes.
pub execute-Granted :
    (svc : Service Memory) (ctx : ℕ → Context) (clock : ℕ → ℕ) (req : Request) (w : World Memory)
    → ((execute (guarded svc) ctx clock req w).1.dispatches ≡ w.dispatches)
      ⊎ ((value : Run) × (sess : Session) × (task : TaskContract) × Granted req w.ledger value sess
            task)
execute-Granted svc ctx clock req w =
    elim (execute-Allowed (guarded svc) (λ m. m.operations) ctx clock req w
      store_repository-IsLedger) [
        | inl same ↦ inl same
        | inr (a, r, c) ↦
            let m = w.ledger in
            let (hr, hs) = authorize_reads (ctx 3) req m a in
            let (e, free) = check_recovery_epoch_done (ctx 5) req m c in
            elim (Option-cases (m.runs req.run_id)) [
              | inl q ↦ elim (hr q) [ ]
              | inr (value, p) ↦ elim (Option-cases (m.sessions req.run_id)) [
                | inl q ↦ elim (hs q) [ ]
                | inr (sess, q) ↦
                    elim (Option-cases (m.tasks_by_digest value.task_contract_digest)) [
                      | inl z ↦ elim (authorize_task (ctx 3) req m value sess p q a z) [ ]
                      | inr (task, z) ↦
                          let (x, y, s) = check_run_epoch_done (ctx 4) req m value sess p q r in
                          inr (
                            value,
                            sess,
                            task,
                            record {
                              run_there = p;
                              session_there = q;
                              task_there = z;
                              action_allowed =
                                  authorize_action (ctx 3) req m value sess task p q z a;
                              run_epoch = x;
                              run_live = y;
                              session_epoch = s;
                              recovery_epoch = e;
                              no_recovery = free;
                            },
                          )
                    ]
              ]
            ]
      ]
