-- ===== src/Session.antt =====
-- internal/session/model.go: who may steer a run, and the order of the steering commands.
mod Order
mod Examples
use engineering_platform.Prelude.{
  Bool, Exec, List, String, err, false, if◌then◌else◌, leb, nat_eq, not, ok, sentinel,
  session_runtime_not_owner, session_sequence, session_stale_epoch, string_eq, true, u64, ℕ, ◌!=◌,
  ◌+◌,
}

pub data ControlOwner : Type 0 where
  runtime human : ControlOwner

abbrev is_runtime : ControlOwner → Bool
is_runtime runtime = true
is_runtime human = false

pub record SteeringCommand : Type 0 where
  pub id : String
  pub run_id : String
  pub execution_epoch : ℕ
  pub sequence : ℕ
  pub actor : String
  pub content_digest : String
  pub created_at : ℕ

pub record CheckpointContent : Type 0 where
  pub run_id : String
  pub task_contract_digest : String
  pub run_input_manifest_digest : String
  pub execution_epoch : ℕ
  pub source_tree_digest : String
  pub diff_digest : String
  pub objective : String
  pub completed : List String
  pub pending : List String
  pub questions : List String
  pub last_event_sequence : ℕ
  pub external_operation_cursor : String

-- `content` holds the fields that `Checkpoint.Digest` copies into `checkpointContent`: all but the
-- name and the time.
pub record Checkpoint : Type 0 where
  pub id : String
  pub content : CheckpointContent
  pub created_at : ℕ

pub record Session : Type 0 where
  pub run_id : String
  pub execution_epoch : ℕ
  pub owner : ControlOwner
  pub last_sequence : ℕ
  pub paused : Bool

unfoldable pub new : String → ℕ → Session
new run_id epoch = record {
  run_id = run_id;
  execution_epoch = epoch;
  owner = runtime;
  last_sequence = 0;
  paused = false;
}

unfoldable pub apply_steering : SteeringCommand → Exec Session Unit
apply_steering cmd s =
    if cmd.execution_epoch != s.execution_epoch
    then (err (sentinel session_stale_epoch), s)
    else if not (is_runtime s.owner)
    then (err (sentinel session_runtime_not_owner), s)
    else if leb cmd.sequence s.last_sequence
    then (err (sentinel session_sequence), s)
    else (ok tt, record s { last_sequence = cmd.sequence })

set_paused : Bool → ℕ → Exec Session Unit
set_paused to epoch s =
    if epoch != s.execution_epoch
    then (err (sentinel session_stale_epoch), s)
    else (ok tt, record s { paused = to })

unfoldable pub pause : ℕ → Exec Session Unit
unfolding set_paused
pause = set_paused true

unfoldable pub resume : ℕ → Exec Session Unit
unfolding set_paused
resume = set_paused false

unfoldable pub takeover : ℕ → Exec Session ℕ
takeover epoch s = if epoch != s.execution_epoch then (err (sentinel session_stale_epoch), s) else (
  ok (u64 (s.execution_epoch + 1)),
  record s { execution_epoch = u64 (s.execution_epoch + 1); owner = human },
)
