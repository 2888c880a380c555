-- ===== src/Outbox.antt =====
-- internal/outbox: what the dispatcher decides about one message (the callback of `DispatchBatch` in
-- dispatcher.go), how long a retry waits, and the classes of risk of the topics (risk.go). A
-- duration is its number of nanoseconds, and the durations here are not negative.
pub mod Batch
mod Retries
mod Classes
mod Examples
use engineering_platform.Prelude.{
  Bool, Error, Result, String, err, false, if◌then◌else◌, leb, ltb, message, nat_eq, not, ok,
  outcome_unknown, risk_class, sentinel, string_eq, suc, true, wrapped, zero, ℕ, ◌!=◌, ◌&&◌, ◌*◌,
  ◌-◌, ◌/◌, ◌==◌, ◌^◌, ◌||◌,
}
use engineering_platform.Action.{
  RiskClass, controlled_mutation, high_risk, observe, other, risk_eq, state_eq,
}

pub data State : Type 0 where
  pending leased dispatched dead_letter : State

pub record Message : Type 0 where
  pub id : ℕ
  pub key : String
  pub topic : String
  pub aggregate_type : String
  pub aggregate_id : String
  pub payload : String
  pub risk_class : RiskClass
  pub state : State
  pub attempt_count : ℕ
  pub lease_owner : String
  pub lease_until : ℕ
  pub lease_recovery_epoch : ℕ
  pub next_attempt_at : ℕ
  pub last_error : String
  pub created_at : ℕ
  pub dispatched_at : ℕ

pub record Resolution : Type 0 where
  pub state : State
  pub retry_after : ℕ
  pub last_error : String

-- 24*time.Hour
abbrev pub day : ℕ
day = 24 * 3600 * 10 ^ 9

-- `Resolution.Validate`.
unfoldable pub validate : Resolution → Result (Unit {0})
validate r = elim r.state [
  | pending ↦
      if r.retry_after == 0 || ltb day r.retry_after
      then err (message "retry delay must be within (0,24h]")
      else ok tt
  | leased ↦ err (message "invalid outbox resolution state")
  | _ ↦
      if r.retry_after != 0
      then err (message "terminal resolution cannot carry retry delay")
      else ok tt
]

-- The loop of `retryDelay`, with the number of rounds that are left at most.
double_up : ℕ → ℕ → ℕ → ℕ
double_up zero base maximum = if ltb maximum base then maximum else base
double_up (suc n) base maximum =
    let rest = double_up n (base * 2) maximum in
    if not (ltb base maximum)
    then (if ltb maximum base then maximum else base)
    else if ltb (maximum / 2) base
    then maximum
    else rest

unfoldable pub retry_delay : ℕ → ℕ → ℕ → ℕ
unfolding double_up
retry_delay base maximum attempt = double_up (attempt - 1) base maximum

abbrev pub is_outcome_unknown : Error → Bool
is_outcome_unknown (sentinel outcome_unknown) = true
is_outcome_unknown (wrapped outcome_unknown e) = true
is_outcome_unknown (wrapped s e) = is_outcome_unknown e
is_outcome_unknown _ = false

-- What the handler's answer makes of a message that it was called with.
abbrev resolve_error : (Error → String) → ℕ → ℕ → ℕ → Message → Error → Resolution
resolve_error text delay max_delay max_attempts current e =
    if is_outcome_unknown e
    then record {
      state = dead_letter;
      retry_after = 0;
      last_error = "outbox recipient outcome requires reconciliation";
    }
    else if leb max_attempts current.attempt_count
    then record { state = dead_letter; retry_after = 0; last_error = text e }
    else record {
      state = pending;
      retry_after = retry_delay delay max_delay current.attempt_count;
      last_error = text e;
    }

-- The callback that `DispatchBatch` gives to the repository: `topic` is that of the message that was
-- claimed, `current` the message as it was read again, `handle` the handler of the topic, and `text`
-- is `Error()`.
unfoldable pub resolve :
    (Error → String) → ℕ → ℕ → ℕ → (Message → Result (Unit {0})) → String → Message → Resolution
resolve text delay max_delay max_attempts handle topic current =
    if current.topic != topic
    then record {
      state = dead_letter;
      retry_after = 0;
      last_error = "outbox risk classification is missing or mismatched";
    }
    else if ltb max_attempts current.attempt_count
    then record { state = dead_letter; retry_after = 0; last_error = "attempt budget exhausted" }
    else elim (handle current) [
      | ok u ↦ record { state = dispatched; retry_after = 0; last_error = "" }
      | err e ↦ resolve_error text delay max_delay max_attempts current e
    ]

unfoldable pub valid_risk : RiskClass → Bool
valid_risk risk = risk == observe || risk == controlled_mutation || risk == high_risk

-- The class that the registry asks for; the empty one where it does not know the topic.
abbrev required : String → RiskClass
required topic =
    if topic == "run.started"
    then controlled_mutation
    else if topic == "work.created"
    then observe
    else other ""

unfoldable pub classify : String → RiskClass → Result RiskClass
unfolding valid_risk
classify topic declared =
    if required topic != other ""
    then (if declared != other "" && declared != required topic
        then err (sentinel risk_class)
        else ok (required topic))
    else if topic == "" || not (valid_risk declared)
    then err (sentinel risk_class)
    else ok declared
