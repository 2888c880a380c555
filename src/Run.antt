-- ===== src/Run.antt =====
-- internal/run/model.go: one execution of a task, fenced by its execution epoch.
mod Fencing
mod Examples
use engineering_platform.Prelude.{
  Bool, Exec, Result, String, err, false, if◌then◌else◌, message, nat_eq, ok, run_stale_epoch,
  run_terminal, sentinel, string_eq, true, u64, wrapped, ℕ, ◌!=◌, ◌+◌,
}

pub data State : Type 0 where
  created running paused human_controlled completed aborted : State

pub record Attempt : Type 0 where
  pub id : String
  pub epoch : ℕ
  pub started_at : ℕ
  pub ended_at : ℕ

pub record Run : Type 0 where
  pub id : String
  pub task_contract_digest : String
  pub run_input_manifest_digest : String
  pub state : State
  pub version : ℕ
  pub current_epoch : ℕ
  pub current_attempt_id : String
  pub control_owner : String

unfoldable pub new : String → String → String → Run
new id task_digest input_digest = record {
  id = id;
  task_contract_digest = task_digest;
  run_input_manifest_digest = input_digest;
  state = created;
  version = 1;
  current_epoch = 0;
  current_attempt_id = "";
  control_owner = "RUNTIME";
}

-- r.State == Completed || r.State == Aborted
abbrev pub is_terminal : State → Bool
is_terminal completed = true
is_terminal aborted = true
is_terminal _ = false

unfoldable pub start_attempt : String → ℕ → Exec Run Attempt
start_attempt id now r = if is_terminal r.state then (err (sentinel run_terminal), r) else (
  ok (record { id = id; epoch = u64 (r.current_epoch + 1); started_at = now; ended_at = 0 }),
  record r {
    current_epoch = u64 (r.current_epoch + 1);
    current_attempt_id = id;
    state = running;
    control_owner = "RUNTIME";
  },
)

unfoldable pub check_epoch : Run → ℕ → Result (Unit {0})
check_epoch r epoch =
    if epoch != r.current_epoch
    then err (wrapped run_stale_epoch (message "got, want"))
    else if is_terminal r.state
    then err (sentinel run_terminal)
    else ok tt

set_state : State → ℕ → Exec Run Unit
unfolding check_epoch
set_state to epoch r = elim (check_epoch r epoch) [
  | err e ↦ (err e, r)
  | ok _ ↦ (ok tt, record r { state = to })
]

unfoldable pub pause : ℕ → Exec Run Unit
unfolding set_state
pause = set_state paused

unfoldable pub resume : ℕ → Exec Run Unit
unfolding set_state
resume = set_state running

-- On an error Go returns the current epoch beside it, which callers ignore.
unfoldable pub takeover : ℕ → Exec Run ℕ
unfolding check_epoch
takeover epoch r = elim (check_epoch r epoch) [
  | err e ↦ (err e, r)
  | ok _ ↦ (
    ok (u64 (r.current_epoch + 1)),
    record r {
      current_epoch = u64 (r.current_epoch + 1);
      state = human_controlled;
      control_owner = "HUMAN";
    },
  )
]

unfoldable pub complete : ℕ → Exec Run Unit
unfolding set_state
complete = set_state completed

unfoldable pub abort : ℕ → Exec Run Unit
unfolding set_state
abort = set_state aborted
