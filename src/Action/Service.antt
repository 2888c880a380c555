-- ===== src/Action/Service.antt =====
-- `Service` of internal/action/service.go: how one external action is reserved, dispatched at most
-- once, settled in the ledger, and reconciled. The provider is outside the repository and is a
-- parameter, as are the authorizer and the guard, which other packages implement; `World` records
-- each call of the provider beside the ledger's state. `Execute` and `Reconcile` are one sequence of
-- calls each: what others do between them is there only if the ledger brings it.
mod Rules
pub mod Settlement
pub mod Authority
pub mod Reconciliation
pub mod Execution
pub mod Dispatches
use engineering_platform.Prelude.{
  Bool, Context, Error, Exec, List, Option, Result, Sentinel, String, ctx_err, denied, err,
  errors_is, external_effect_unresolved, false, idempotency_conflict, if◌then◌else◌, lift, message,
  nat_eq, none, not, ok, operation_absent, operation_exists, pure, raise, risk_class, sentinel,
  some, string_eq, true, wrapped, ℕ, ◌!=◌, ◌==◌, ◌>>=◌, ◌>>◌, ◌∷◌, ◌≡◌,
}
use engineering_platform.Action.{
  Operation, Receipt, Request, RiskClass, State, abandoned_reconciled, confirmed, dispatched,
  manual, new_operation, observe, receipt_from_operation, reconciling, risk_eq, safe_to_retry,
  state_eq, transition, unknown,
}
use engineering_platform.Action.Repository.{Repository}

pub data DispatchOutcome : Type 0 where
  dispatch_confirmed dispatch_unknown : DispatchOutcome
  other_dispatch : String → DispatchOutcome

pub data ReconcileOutcome : Type 0 where
  reconcile_confirmed reconcile_safe_to_retry reconcile_manual : ReconcileOutcome
  other_reconcile : String → ReconcileOutcome

pub record DispatchResult : Type 0 where
  pub outcome : DispatchOutcome
  pub external_ref : String
  pub observed_state : String

pub record ReconcileResult : Type 0 where
  pub outcome : ReconcileOutcome
  pub external_ref : String
  pub observed_state : String

-- `requestIdentity`, which `requestDigest` hashes: the key and the time are not in it.
pub record RequestIdentity : Type 0 where
  pub id : String
  pub run_id : String
  pub execution_epoch : ℕ
  pub recovery_epoch : ℕ
  pub action : String
  pub risk_class : RiskClass
  pub capability : String
  pub parameters_digest : String
  pub requested_by : String

unfoldable pub identity : Request → RequestIdentity
identity req = record {
  id = req.id;
  run_id = req.run_id;
  execution_epoch = req.execution_epoch;
  recovery_epoch = req.recovery_epoch;
  action = req.action;
  risk_class = req.risk_class;
  capability = req.capability;
  parameters_digest = req.parameters_digest;
  requested_by = req.requested_by;
}

-- `configured` says that no field is nil, `can_reconcile` that the repository and the provider are
-- not. The provider sees what was asked of it before.
pub record Service (S : Type 0) : Type 0 where
  pub configured : Bool
  pub can_reconcile : Bool
  pub authorize : Context → Request → S → Result (Unit {0})
  pub check_run_epoch : Context → String → ℕ → S → Result (Unit {0})
  pub check_recovery_epoch : Context → ℕ → RiskClass → S → Result (Unit {0})
  pub dispatch : List Request → Request → Result DispatchResult
  pub observe_effect : List Operation → Operation → Result ReconcileResult
  pub repository : Repository S
  pub request_digest : RequestIdentity → Result String

-- `dispatches` and `observations` are the calls of the provider, the latest first.
pub record World (S : Type 0) : Type 0 where
  pub ledger : S
  pub dispatches : List Request
  pub observations : List Operation

-- The provider has been asked this, and no more.
abbrev pub Asked : {S : Type 0} → List Request → List Operation → World S → Type 0
Asked calls seen w = (w.dispatches ≡ calls) × (w.observations ≡ seen)

abbrev pub is_absent : Sentinel → Bool
is_absent operation_absent = true
is_absent _ = false

abbrev pub is_exists : Sentinel → Bool
is_exists operation_exists = true
is_exists _ = false

abbrev pub unresolved_external_effect : Error → Error
unresolved_external_effect e = wrapped external_effect_unresolved e

abbrev denied_by : Result (Unit {0}) → Result (Unit {0})
denied_by (ok u) = ok u
denied_by (err e) = err (wrapped denied e)

-- A refusal of an operation that is known and must not be replayed.
unfoldable pub refusal : State → Option Error
refusal abandoned_reconciled =
    some (wrapped denied (message "abandoned external reservation has no replay authority"))
refusal safe_to_retry =
    some (wrapped denied (message "SAFE_TO_RETRY has no independent dispatch-quiescence proof"))
refusal _ = none

abbrev replay_known : Request → Operation → ℕ → Result Receipt
replay_known req existing now = elim (refusal existing.state) [
  | some e ↦ err e
  | none ↦ ok (receipt_from_operation req.id existing now)
]

-- The answer to a request whose key the first lookup found.
unfoldable pub answer_existing : Request → String → Operation → ℕ → Result Receipt
unfolding refusal
answer_existing req digest existing now =
    if existing.request_digest != digest
    then err (sentinel idempotency_conflict)
    else replay_known req existing now

-- The answer after a create that found the operation there; `e` is the error of that create.
unfoldable pub answer_raced : Request → String → Error → Result Operation → ℕ → Result Receipt
unfolding refusal
answer_raced req digest e (err e') now = err e
answer_raced req digest e (ok existing) now =
    if existing.request_digest == digest then replay_known req existing now else err e

-- What a provider's answer does to the operation: the state to enter, the observation that is
-- kept, and whether the answer was none that the contract allows.
pub record Verdict : Type 0 where
  pub to : State
  pub external_ref : String
  pub observed_state : String
  pub invalid : Bool

abbrev verdict_of : State → String → String → Bool → Verdict
verdict_of to ref observed invalid = record {
  to = to;
  external_ref = ref;
  observed_state = observed;
  invalid = invalid;
}

unfoldable pub dispatch_verdict : DispatchOutcome → DispatchResult → Verdict
dispatch_verdict dispatch_confirmed r = verdict_of confirmed r.external_ref r.observed_state false
dispatch_verdict dispatch_unknown r = verdict_of unknown r.external_ref r.observed_state false
dispatch_verdict (other_dispatch o) r =
    verdict_of unknown "" "INVALID_PROVIDER_DISPATCH_OUTCOME" true

unfoldable pub reconcile_verdict : ReconcileOutcome → RiskClass → ReconcileResult → Verdict
reconcile_verdict reconcile_confirmed observe r =
    verdict_of confirmed r.external_ref r.observed_state false
reconcile_verdict reconcile_confirmed risk r =
    verdict_of manual "" "UNQUALIFIED_CONFIRMATION_VERDICT" true
reconcile_verdict reconcile_safe_to_retry risk r =
    verdict_of manual "" "UNQUALIFIED_RETRY_VERDICT" true
reconcile_verdict reconcile_manual risk r = verdict_of manual r.external_ref r.observed_state false
reconcile_verdict (other_reconcile o) risk r =
    verdict_of manual "" "INVALID_PROVIDER_RECONCILE_OUTCOME" true

module _ {S : Type 0} where
  -- A call of the ledger, its error returned as a value.
  abbrev pub ask : {A : Type 0} → Exec S A → Exec (World S) (Result A)
  ask m w = let (r, s) = m w.ledger in (ok r, record w { ledger = s })

  abbrev pub on_ledger : {A : Type 0} → Exec S A → Exec (World S) A
  on_ledger m w = let (r, s) = m w.ledger in (r, record w { ledger = s })

  abbrev pub check : (S → Result (Unit {0})) → Exec (World S) Unit
  check f w = (f w.ledger, w)

  abbrev pub when_ok :
      {A B : Type 0}
      → Result A
      → (A → Exec (World S) B)
      → (Error → Exec (World S) B)
      → Exec (World S) B
  when_ok (ok a) f g = f a
  when_ok (err e) f g = g e

  abbrev pub stop_if : Bool → Error → Exec (World S) Unit
  stop_if true e w = (err e, w)
  stop_if false e w = (ok tt, w)

  -- `op.Transition(to, now)` on a local operation, with the error that a failure is reported by.
  abbrev pub moved : (Error → Error) → State → ℕ → Operation → Exec (World S) Operation
  moved tag to now op =
      let t = transition to now op in when_ok t.0 (λ _. pure t.1) (λ e. raise (tag e))

module _ {S : Type 0} (svc : Service S) (ctx : ℕ → Context) (clock : ℕ → ℕ) where
  unfoldable pub call_dispatch : Request → Exec (World S) (Result DispatchResult)
  call_dispatch req w =
      (ok (svc.dispatch w.dispatches req), record w { dispatches = req ∷ w.dispatches })

  unfoldable pub call_reconcile : Operation → Exec (World S) (Result ReconcileResult)
  call_reconcile op w =
      (ok (svc.observe_effect w.observations op), record w { observations = op ∷ w.observations })

  -- `settleExternalEffect`: one write under a context of its own, and its failure reported as an
  -- effect that is not resolved.
  unfoldable pub settle_external_effect : Operation → Exec (World S) Unit
  settle_external_effect op = do
    written ← ask (svc.repository.update (ctx 11) op)
    when_ok written (λ _. pure tt) (λ e. raise (unresolved_external_effect e))

  unfoldable pub settle : String → Operation → Verdict → Exec (World S) Receipt
  settle request_id op v = do
    op' ← moved unresolved_external_effect v.to (clock 2) op
    let op'' = record op' { external_ref = v.external_ref; observed_state = v.observed_state }
    settle_external_effect op''
    stop_if v.invalid (unresolved_external_effect (message "unsupported provider outcome"))
    pure (receipt_from_operation request_id op'' (clock 3))

  -- A provider error leaves the outcome UNKNOWN.
  pub settle_unknown : Request → Operation → Exec (World S) Receipt
  settle_unknown req op = do
    op' ← moved unresolved_external_effect unknown (clock 2) op
    settle_external_effect op'
    pure (receipt_from_operation req.id op' (clock 3))

  -- `Execute` from the reservation that was created on.
  unfoldable pub dispatch_reserved : Request → Operation → Exec (World S) Receipt
  unfolding call_dispatch
  dispatch_reserved req op = do
    ctx_err (ctx 8) 0
    op' ← moved (λ e. e) dispatched (clock 1) op
    on_ledger (svc.repository.update (ctx 9) op')
    ctx_err (ctx 10) 0
    answer ← call_dispatch req
    when_ok answer (λ r. settle req.id op' (dispatch_verdict r.outcome r))
        (λ e. settle_unknown req op')

  -- `Execute` after a lookup that found no operation under the key.
  unfoldable pub reserve : Request → String → Exec (World S) Receipt
  reserve req digest = do
    ctx_err (ctx 2) 0
    check (λ s. denied_by (svc.authorize (ctx 3) req s))
    ctx_err (ctx 3) 0
    check (svc.check_run_epoch (ctx 4) req.run_id req.execution_epoch)
    ctx_err (ctx 4) 0
    check (svc.check_recovery_epoch (ctx 5) req.recovery_epoch req.risk_class)
    ctx_err (ctx 5) 0
    let op = new_operation req digest (clock 1)
    created ← ask (svc.repository.create (ctx 6) op)
    when_ok created (λ _. dispatch_reserved req op)
        λ e.
          if errors_is is_exists e
          then (do
            existing ← ask (svc.repository.get_by_key (ctx 7) req.idempotency_key)
            lift (answer_raced req digest e existing (clock 0)))
          else raise e

  unfoldable pub execute : Request → Exec (World S) Receipt
  execute req = do
    stop_if (not svc.configured) (message "action service is not fully configured")
    stop_if (req.idempotency_key == "") (message "idempotency key is required")
    ctx_err (ctx 0) 0
    digest ← lift (svc.request_digest (identity req))
    known ← ask (svc.repository.get_by_key (ctx 1) req.idempotency_key)
    when_ok known (λ existing. lift (answer_existing req digest existing (clock 0)))
        λ e. if errors_is is_absent e then reserve req digest else raise e

  -- A reconciliation whose provider call failed is MANUAL, whatever the switch would allow.
  pub settle_manual : Operation → Exec (World S) Receipt
  settle_manual op = do
    let op' = record op { state = manual; updated_at = clock 2 }
    settle_external_effect op'
    pure (receipt_from_operation "" op' (clock 3))

  unfoldable pub reconcile : String → Exec (World S) Receipt
  unfolding call_reconcile
  reconcile operation_id = do
    stop_if (not svc.can_reconcile) (message "action reconcile service is not fully configured")
    ctx_err (ctx 0) 0
    op ← on_ledger (svc.repository.get (ctx 1) operation_id)
    ctx_err (ctx 2) 0
    stop_if (op.state != unknown) (message "operation is not UNKNOWN")
    op' ← moved (λ e. e) reconciling (clock 1) op
    ctx_err (ctx 3) 0
    on_ledger (svc.repository.update (ctx 4) op')
    ctx_err (ctx 5) 0
    answer ← call_reconcile op'
    when_ok answer (λ r. settle "" op' (reconcile_verdict r.outcome op'.risk_class r))
        (λ e. settle_manual op')
