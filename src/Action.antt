-- ===== src/Action.antt =====
-- internal/action: requests, receipts and operations (model.go), and the ledger's state machine
-- (ledger.go).
pub mod Ledger
pub mod Repository
pub mod Service
mod Examples
use engineering_platform.Prelude.{
  ==_iff, Bool, Eq, Exec, String, arith, err, false, if◌then◌else◌, invalid_transition, nat_eq, not,
  ok, risk_class, sentinel, string_eq, true, ℕ, ◌&&◌, ◌<>◌, ◌==◌, ◌||◌, ◌↔◌, ◌≡◌,
}

pub data State : Type 0 where
  planned dispatched confirmed unknown reconciling safe_to_retry manual abandoned_reconciled : State

abbrev pub state_beq : State → State → Bool
state_beq planned planned = true
state_beq dispatched dispatched = true
state_beq confirmed confirmed = true
state_beq unknown unknown = true
state_beq reconciling reconciling = true
state_beq safe_to_retry safe_to_retry = true
state_beq manual manual = true
state_beq abandoned_reconciled abandoned_reconciled = true
state_beq _ _ = false

pub state_beq_iff : (a b : State) → (state_beq a b ≡ true) ↔ (a ≡ b)
state_beq_iff planned _ = ground arith
state_beq_iff _ _ = ground arith

instance abbrev pub state_eq : Eq State
state_eq = record { equal = state_beq; equal_iff = state_beq_iff }

abbrev pub state_name : State → String
state_name planned = "PLANNED"
state_name dispatched = "DISPATCHED"
state_name confirmed = "CONFIRMED"
state_name unknown = "UNKNOWN"
state_name reconciling = "RECONCILING"
state_name safe_to_retry = "SAFE_TO_RETRY"
state_name manual = "MANUAL"
state_name abandoned_reconciled = "ABANDONED_RECONCILED"

-- `other` is a Go string that is none of the constants, the empty one included.
pub data RiskClass : Type 0 where
  observe controlled_mutation high_risk : RiskClass
  other : String → RiskClass

abbrev pub risk_beq : RiskClass → RiskClass → Bool
risk_beq observe observe = true
risk_beq controlled_mutation controlled_mutation = true
risk_beq high_risk high_risk = true
risk_beq (other a) (other b) = a == b
risk_beq _ _ = false

pub risk_beq_iff : (a b : RiskClass) → (risk_beq a b ≡ true) ↔ (a ≡ b)
risk_beq_iff (other a) (other b) = ground (arith, ==_iff a b)
risk_beq_iff observe _ = ground arith
risk_beq_iff _ _ = ground arith

instance abbrev pub risk_eq : Eq RiskClass
risk_eq = record { equal = risk_beq; equal_iff = risk_beq_iff }

pub record Request : Type 0 where
  pub id : String
  pub run_id : String
  pub execution_epoch : ℕ
  pub recovery_epoch : ℕ
  pub action : String
  pub risk_class : RiskClass
  pub capability : String
  pub parameters_digest : String
  pub idempotency_key : String
  pub requested_by : String
  pub requested_at : ℕ

pub record Receipt : Type 0 where
  pub id : String
  pub request_id : String
  pub operation_id : String
  pub result : String
  pub external_ref : String
  pub observed_state : String
  pub created_at : ℕ

pub record Operation : Type 0 where
  pub id : String
  pub run_id : String
  pub execution_epoch : ℕ
  pub recovery_epoch : ℕ
  pub action : String
  pub risk_class : RiskClass
  pub capability : String
  pub idempotency_key : String
  pub request_digest : String
  pub state : State
  pub updated_at : ℕ
  pub external_ref : String
  pub observed_state : String

-- `NewWithRequestDigest`.
unfoldable pub new_operation : Request → String → ℕ → Operation
new_operation req request_digest now = record {
  id = req.id;
  run_id = req.run_id;
  execution_epoch = req.execution_epoch;
  recovery_epoch = req.recovery_epoch;
  action = req.action;
  risk_class = req.risk_class;
  capability = req.capability;
  idempotency_key = req.idempotency_key;
  request_digest = request_digest;
  state = planned;
  updated_at = now;
  external_ref = "";
  observed_state = "";
}

-- The switch of `Transition`.
unfoldable pub valid_step : State → RiskClass → State → Bool
valid_step planned risk to = to == dispatched
valid_step dispatched risk to = to == confirmed || to == unknown
valid_step unknown risk to = to == reconciling
valid_step reconciling risk to = to == manual || (to == confirmed && risk == observe)
valid_step _ risk to = false

unfoldable pub transition : State → ℕ → Exec Operation Unit
transition to now o =
    if not (valid_step o.state o.risk_class to)
    then (err (sentinel invalid_transition), o)
    else (ok tt, record o { state = to; updated_at = now })

unfoldable pub same_reservation : Operation → Operation → Bool
same_reservation o p =
    o.id == p.id
    && o.run_id == p.run_id
    && o.execution_epoch == p.execution_epoch
    && o.recovery_epoch == p.recovery_epoch
    && o.action == p.action
    && o.risk_class == p.risk_class
    && o.capability == p.capability
    && o.idempotency_key == p.idempotency_key
    && o.request_digest == p.request_digest

unfoldable pub receipt_from_operation : String → Operation → ℕ → Receipt
receipt_from_operation request_id op now = record {
  id = "receipt:" <> (op.id <> (":" <> state_name op.state));
  request_id = if request_id == "" then op.id else request_id;
  operation_id = op.id;
  result = state_name op.state;
  external_ref = op.external_ref;
  observed_state = op.observed_state;
  created_at = now;
}
