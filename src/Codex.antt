-- ===== src/Codex.antt =====
-- internal/codexexec (control.go and the token of model.go): live controls of a Codex execution,
-- which steer or interrupt one turn. A time that is not set is 0, and so is an int64 below 1.
pub mod Checks
pub mod Transcripts
pub mod Profiles
pub mod Database
pub mod Controls
pub mod Transactions
pub mod Rules
pub mod Changes
pub mod Written
pub mod Orders
pub mod History
pub mod Ordered
pub mod Timely
pub mod Closing
pub mod Single
mod Examples
use engineering_platform.Session
use engineering_platform.ProcessScope
use engineering_platform.ProcessScope.{proof_eq}
use engineering_platform.Prelude.{
  ==_iff, Bool, Eq, List, Option, String, arith, false, nat_eq, string_eq, true, ℕ, ◌&&◌, ◌==◌, ◌↔◌,
  ◌≡◌,
}

pub record Token : Type 0 where
  pub id : String
  pub run_id : String
  pub worker_profile : String
  pub profile_digest : String
  pub recovery_epoch : ℕ

abbrev token_beq : Token → Token → Bool
token_beq a b =
    a.id == b.id
    && a.run_id == b.run_id
    && a.worker_profile == b.worker_profile
    && a.profile_digest == b.profile_digest
    && a.recovery_epoch == b.recovery_epoch

pub token_beq_iff : (a b : Token) → (token_beq a b ≡ true) ↔ (a ≡ b)
token_beq_iff a b = ground (
  arith,
  ==_iff a.id b.id,
  ==_iff a.run_id b.run_id,
  ==_iff a.worker_profile b.worker_profile,
  ==_iff a.profile_digest b.profile_digest,
  ==_iff a.recovery_epoch b.recovery_epoch,
)

instance abbrev pub token_eq : Eq Token
token_eq = record { equal = token_beq; equal_iff = token_beq_iff }

-- `other` is a Go string that is none of the constants.
pub data ControlKind : Type 0 where
  steer interrupt : ControlKind
  other : String → ControlKind

abbrev kind_beq : ControlKind → ControlKind → Bool
kind_beq steer steer = true
kind_beq interrupt interrupt = true
kind_beq (ControlKind.other a) (ControlKind.other b) = a == b
kind_beq _ _ = false

pub kind_beq_iff : (a b : ControlKind) → (kind_beq a b ≡ true) ↔ (a ≡ b)
kind_beq_iff (ControlKind.other a) (ControlKind.other b) = ground (arith, ==_iff a b)
kind_beq_iff steer _ = ground arith
kind_beq_iff _ _ = ground arith

instance abbrev pub kind_eq : Eq ControlKind
kind_eq = record { equal = kind_beq; equal_iff = kind_beq_iff }

pub data DeliveryState : Type 0 where
  queued dispatching steer_accepted interrupt_acknowledged : DeliveryState
  turn_interrupted not_applied unknown : DeliveryState
  other : String → DeliveryState

abbrev delivery_state_beq : DeliveryState → DeliveryState → Bool
delivery_state_beq queued queued = true
delivery_state_beq dispatching dispatching = true
delivery_state_beq steer_accepted steer_accepted = true
delivery_state_beq interrupt_acknowledged interrupt_acknowledged = true
delivery_state_beq turn_interrupted turn_interrupted = true
delivery_state_beq not_applied not_applied = true
delivery_state_beq DeliveryState.unknown DeliveryState.unknown = true
delivery_state_beq (DeliveryState.other a) (DeliveryState.other b) = a == b
delivery_state_beq _ _ = false

pub delivery_state_beq_iff : (a b : DeliveryState) → (delivery_state_beq a b ≡ true) ↔ (a ≡ b)
delivery_state_beq_iff (DeliveryState.other a) (DeliveryState.other b) = ground (arith, ==_iff a b)
delivery_state_beq_iff queued _ = ground arith
delivery_state_beq_iff _ _ = ground arith

instance abbrev pub delivery_state_eq : Eq DeliveryState
delivery_state_eq = record { equal = delivery_state_beq; equal_iff = delivery_state_beq_iff }

pub data TurnStatus : Type 0 where
  completed interrupted failed unknown : TurnStatus
  other : String → TurnStatus

abbrev turn_beq : TurnStatus → TurnStatus → Bool
turn_beq completed completed = true
turn_beq interrupted interrupted = true
turn_beq failed failed = true
turn_beq TurnStatus.unknown TurnStatus.unknown = true
turn_beq (TurnStatus.other a) (TurnStatus.other b) = a == b
turn_beq _ _ = false

pub turn_beq_iff : (a b : TurnStatus) → (turn_beq a b ≡ true) ↔ (a ≡ b)
turn_beq_iff (TurnStatus.other a) (TurnStatus.other b) = ground (arith, ==_iff a b)
turn_beq_iff completed _ = ground arith
turn_beq_iff _ _ = ground arith

instance abbrev pub turn_eq : Eq TurnStatus
turn_eq = record { equal = turn_beq; equal_iff = turn_beq_iff }

pub record ControlInput : Type 0 where
  pub id : String
  pub execution_epoch : ℕ
  pub sequence : ℕ
  pub actor : String
  pub thread_id : String
  pub turn_id : String
  pub text : String

pub record ControlBinding : Type 0 where
  pub token : Token
  pub execution_epoch : ℕ
  pub thread_id : String
  pub turn_id : String

abbrev binding_beq : ControlBinding → ControlBinding → Bool
binding_beq a b =
    a.token == b.token
    && a.execution_epoch == b.execution_epoch
    && a.thread_id == b.thread_id
    && a.turn_id == b.turn_id

pub binding_beq_iff : (a b : ControlBinding) → (binding_beq a b ≡ true) ↔ (a ≡ b)
binding_beq_iff a b = ground (
  arith,
  token_beq_iff a.token b.token,
  ==_iff a.execution_epoch b.execution_epoch,
  ==_iff a.thread_id b.thread_id,
  ==_iff a.turn_id b.turn_id,
)

instance abbrev pub binding_eq : Eq ControlBinding
binding_eq = record { equal = binding_beq; equal_iff = binding_beq_iff }

pub record ControlPayload : Type 0 where
  pub binding : ControlBinding
  pub kind : ControlKind
  pub text : String

pub record ControlDelivery : Type 0 where
  pub command : Session.SteeringCommand
  pub payload : ControlPayload
  pub state : DeliveryState
  pub dispatched_at : Option ℕ
  pub resolved_at : Option ℕ

pub record ControlSettlement : Type 0 where
  pub binding : ControlBinding
  pub id : String
  pub outcome : DeliveryState

pub record ControlClose : Type 0 where
  pub binding : ControlBinding
  pub turn_status : TurnStatus
  pub process_scope : ProcessScope.Proof

abbrev close_beq : ControlClose → ControlClose → Bool
close_beq a b =
    a.binding == b.binding && a.turn_status == b.turn_status && a.process_scope == b.process_scope

pub close_beq_iff : (a b : ControlClose) → (close_beq a b ≡ true) ↔ (a ≡ b)
close_beq_iff a b = ground (
  arith,
  binding_beq_iff a.binding b.binding,
  ==_iff a.turn_status b.turn_status,
  ==_iff a.process_scope b.process_scope,
)

instance abbrev pub close_eq : Eq ControlClose
close_eq = record { equal = close_beq; equal_iff = close_beq_iff }

pub record ControlTranscript : Type 0 where
  pub version : ℕ
  pub close : ControlClose
  pub deliveries : List ControlDelivery

-- The states that the table admits are the first two.
pub data RuntimeState : Type 0 where
  active sealed : RuntimeState
  other : String → RuntimeState

pub record ControlRuntime : Type 0 where
  pub binding : ControlBinding
  pub state : RuntimeState
  pub transcript : Option ControlTranscript
  pub digest : String
