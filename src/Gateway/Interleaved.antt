-- ===== src/Gateway/Interleaved.antt =====
-- What stands behind an action when others act on the store between the calls of `Service.Execute`
-- (internal/action/service.go) and of internal/gateway/authority.go.
use mathlib.Core.Path.{subst}
use engineering_platform.Action.Service.Authority.{found-Allowed}
use engineering_platform.Store.Operations.Ledger.{get_operation_by_key_still}
use engineering_platform.Prelude.{
  Context, Exec, List, Option-cases, arith, contains, false, inl, inr, is_ok, nat_eq, none, some,
  string_eq, true, ℕ, ◌+◌, ◌>>=◌, ◌≡◌, ◌≢◌, ◌⊎◌,
}
use engineering_platform.Action.{Operation, Request, observe, risk_eq, state_eq}
use engineering_platform.Core.{TaskContract, work_state_eq}
use engineering_platform.Run.{Run, is_terminal}
use engineering_platform.Session.{Session}
use engineering_platform.Recovery.{normal}
use engineering_platform.Action.Service.{Service, World, execute}
use engineering_platform.Store.{Memory}
use engineering_platform.Store.Operations.{
  create_operation, get_operation, get_operation_by_key, update_operation,
}
use engineering_platform.Store.Executions.{get_execution}
use engineering_platform.Gateway.{authorize, check_recovery_epoch, check_run_epoch}
use engineering_platform.Gateway.Dispatch.{
  authorize_action, authorize_reads, authorize_task, check_recovery_epoch_done,
  check_run_epoch_done,
}

-- The store that `Execute` shares, and how often it has called it.
pub record Shared : Type 0 where
  pub store : Memory
  pub calls : ℕ

abbrev one_call : {A : Type 0} → (ℕ → Memory → Memory) → Exec Memory A → Exec Shared A
one_call others f s =
    let (r, m) = f (others s.calls s.store) in (r, record { store = m; calls = s.calls + 1 })

-- The stores that the three guards read, one after the other.
abbrev first_guard : (ℕ → Memory → Memory) → Shared → Memory
first_guard others s = others s.calls s.store

abbrev second_guard : (ℕ → Memory → Memory) → Shared → Memory
second_guard others s = others (s.calls + 1) (first_guard others s)

abbrev third_guard : (ℕ → Memory → Memory) → Shared → Memory
third_guard others s = others (s.calls + 2) (second_guard others s)

-- The service behind the gateway, where others do `others n` to the store before its n-th call. The
-- guards write nothing, so the create that follows them finds what others did before each of them.
abbrev pub guarded_among : (ℕ → Memory → Memory) → Service Memory → Service Shared
guarded_among others svc = record {
  configured = svc.configured;
  can_reconcile = svc.can_reconcile;
  authorize = λ ctx req s. (authorize ctx req (first_guard others s)).0;
  check_run_epoch =
      λ ctx run_id epoch s. (check_run_epoch ctx run_id epoch (second_guard others s)).0;
  check_recovery_epoch =
      λ ctx epoch risk s. (check_recovery_epoch ctx epoch risk (third_guard others s)).0;
  dispatch = svc.dispatch;
  observe_effect = svc.observe_effect;
  repository = record {
    create = λ ctx op s.
        one_call others (create_operation ctx op)
          (record { store = third_guard others s; calls = s.calls + 3 });
    get = λ ctx id. one_call others (get_operation ctx id);
    get_by_key = λ ctx key. one_call others (get_operation_by_key ctx key);
    update = λ ctx op. one_call others (update_operation ctx op);
  };
  request_digest = svc.request_digest;
}

-- What the authorizer has seen.
pub record Authorized (req : Request) (m : Memory) : Type 0 where
  pub value : Run
  pub sess : Session
  pub task : TaskContract
  pub run_there : m.runs req.run_id ≡ some value
  pub session_there : m.sessions req.run_id ≡ some sess
  pub task_there : m.tasks_by_digest value.task_contract_digest ≡ some task
  pub action_allowed : contains task.allowed_actions req.action ≡ true

-- What the guard of the run has seen.
pub record Live (req : Request) (m : Memory) : Type 0 where
  pub value : Run
  pub sess : Session
  pub run_there : m.runs req.run_id ≡ some value
  pub session_there : m.sessions req.run_id ≡ some sess
  pub run_epoch : value.current_epoch ≡ req.execution_epoch
  pub run_live : is_terminal value.state ≡ false
  pub session_epoch : sess.execution_epoch ≡ req.execution_epoch

-- What the guard of recovery has seen.
pub record Unblocked (req : Request) (m : Memory) : Type 0 where
  pub recovery_epoch : m.recovery_state.epoch ≡ req.recovery_epoch
  pub no_recovery : (req.risk_class ≡ observe) ⊎ (m.recovery_state.mode ≡ normal)

module _ (ctx : Context) (req : Request) (m : Memory) where
  authorize-Authorized : is_ok (authorize ctx req m).0 ≡ true → Authorized req m
  authorize-Authorized h =
      let (hr, hs) = authorize_reads ctx req m h in
      elim (Option-cases (m.runs req.run_id)) [
        | inl q ↦ elim (hr q) [ ]
        | inr (value, p) ↦ elim (Option-cases (m.sessions req.run_id)) [
          | inl q ↦ elim (hs q) [ ]
          | inr (sess, q) ↦ elim (Option-cases (m.tasks_by_digest value.task_contract_digest)) [
            | inl z ↦ elim (authorize_task ctx req m value sess p q h z) [ ]
            | inr (task, z) ↦ record {
              value = value;
              sess = sess;
              task = task;
              run_there = p;
              session_there = q;
              task_there = z;
              action_allowed = authorize_action ctx req m value sess task p q z h;
            }
          ]
        ]
      ]

  check_run_epoch_reads :
      is_ok (check_run_epoch ctx req.run_id req.execution_epoch m).0 ≡ true
      → (m.runs req.run_id ≢ none) × (m.sessions req.run_id ≢ none)
  unfolding check_run_epoch get_execution ◌>>=◌
  check_run_epoch_reads h = ground arith

  check_run_epoch-Live :
      is_ok (check_run_epoch ctx req.run_id req.execution_epoch m).0 ≡ true → Live req m
  check_run_epoch-Live h =
      let (hr, hs) = check_run_epoch_reads h in
      elim (Option-cases (m.runs req.run_id)) [
        | inl q ↦ elim (hr q) [ ]
        | inr (value, p) ↦ elim (Option-cases (m.sessions req.run_id)) [
          | inl q ↦ elim (hs q) [ ]
          | inr (sess, q) ↦
              let (x, y, z) = check_run_epoch_done ctx req m value sess p q h in
              record {
                value = value;
                sess = sess;
                run_there = p;
                session_there = q;
                run_epoch = x;
                run_live = y;
                session_epoch = z;
              }
        ]
      ]

-- The execution has not called the store yet, and the provider has been asked this before.
abbrev pub starting : Memory → List Request → List Operation → World Shared
starting m asked seen = record {
  ledger = record { store = m; calls = 0 };
  dispatches = asked;
  observations = seen;
}

-- Behind the gateway, whatever others do to the store before each call that an execution makes of
-- it, the provider is asked only if the three guards passed, each in the store of its own moment:
-- the first saw a run and a session and a frozen task of the run that allows the action; the second,
-- after what others did meanwhile, the run live and its session under the request's epoch; the
-- third, again later, the request's recovery epoch and no recovery under way unless the action
-- observes. A guard's own reads are one step here, and nothing is said of the store at the dispatch.
pub execute-Cleared :
    (others : ℕ → Memory → Memory) (svc : Service Memory) (ctx : ℕ → Context) (clock : ℕ → ℕ)
    (req : Request) (m : Memory) (asked : List Request) (seen : List Operation)
    → let w' = (execute (guarded_among others svc) ctx clock req (starting m asked seen)).1 in
      let m1 = others 1 (others 0 m) in
      let m2 = others 2 m1 in
      (w'.dispatches ≡ asked) ⊎ (Authorized req m1 × Live req m2 × Unblocked req (others 3 m2))
execute-Cleared others svc ctx clock req m asked seen =
    let still = get_operation_by_key_still (ctx 1) req.idempotency_key (others 0 m) in
    elim (found-Allowed (guarded_among others svc) ctx clock req (starting m asked seen)) [
      | inl same ↦ inl same
      | inr (a, r, c) ↦
          let first = λ (m0 : Memory). others 1 m0 in
          let second = λ (m0 : Memory). others 2 (first m0) in
          let third = λ (m0 : Memory). others 3 (second m0) in
          let (e, free) = check_recovery_epoch_done (ctx 5) req _ c in
          inr (
            subst (λ m0. Authorized req (first m0)) still (authorize-Authorized (ctx 3) req _ a),
            subst (λ m0. Live req (second m0)) still (check_run_epoch-Live (ctx 4) req _ r),
            subst (λ m0. Unblocked req (third m0)) still
                (record { recovery_epoch = e; no_recovery = free }),
          )
    ]
