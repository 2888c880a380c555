-- ===== src/Api/Runs.antt =====
-- Runs (handleCreateRun to handleCompleteRun, mutateExecution and writeExecution of
-- internal/api/server.go), but the live steering of a worker.
use engineering_platform.Run
use engineering_platform.Session
use engineering_platform.Prelude.{
  Bool, Error, Exec, List, Option, Result, String, conflict, err, fail_if, false, has_prefix,
  if◌then◌else◌, lift, message, nat_eq, none, not, ok, pure, some, string_eq, true, ℕ, ◌!=◌, ◌==◌,
  ◌>>=◌, ◌>>◌, ◌||◌,
}
use engineering_platform.Core.{
  RunInputManifest, executing, ready, transition, verifying, work_state_eq,
}
use engineering_platform.Digests.{Hashing, input_digest}
use engineering_platform.Session.{Checkpoint, SteeringCommand}
use engineering_platform.Store.{Memory}
use engineering_platform.Store.Works.{get_work}
use engineering_platform.Store.Tasks.{get_task_by_digest}
use engineering_platform.Store.Executions.{
  create_checkpoint, create_execution_and_update_work, get_checkpoint, get_execution,
  get_run_input_by_digest, get_steering, update_execution, update_execution_and_work,
}
use engineering_platform.Api.{
  Net, Reply, answer, call, compute, create_error, freeze_error, mutation_error, public_error,
  refuse_if, store_error,
}

pub record CreateRunRequest : Type 0 where
  pub run_id : String
  pub task_contract_digest : String
  pub attempt_id : String
  pub run_input : RunInputManifest

-- The input under the request's own run and task.
abbrev pub own_input : CreateRunRequest → RunInputManifest
own_input req = record req.run_input {
  run_id = req.run_id;
  task_contract_digest = req.task_contract_digest;
}

abbrev is_none : {A : Type 0} → Option A → Bool
is_none none = true
is_none (some a) = false

-- What the functions that `mutateExecution` is given do to its copies of a run and a session: an
-- error discards both.
-- The first method's error ends the function before the second.
abbrev both :
    {A B : Type 0}
    → Result A × Run.Run
    → Result B × Session.Session
    → Result ((A × B) × Run.Run × Session.Session)
both (err e, value) (r, sess) = err e
both (ok a, value) (err e, sess) = err e
both (ok a, value) (ok b, sess) = ok ((a, b), value, sess)

unfoldable pub pause_both :
    ℕ → Run.Run → Session.Session → Result ((Unit {0} × Unit {0}) × Run.Run × Session.Session)
unfolding Run.pause Session.pause
pause_both epoch value sess = both (Run.pause epoch value) (Session.pause epoch sess)

unfoldable pub resume_both :
    ℕ → Run.Run → Session.Session → Result ((Unit {0} × Unit {0}) × Run.Run × Session.Session)
unfolding Run.resume Session.resume
resume_both epoch value sess = both (Run.resume epoch value) (Session.resume epoch sess)

-- The last check of the function that `handleTakeover` gives.
abbrev same_epochs :
    Result ((ℕ × ℕ) × Run.Run × Session.Session) → Result (ℕ × Run.Run × Session.Session)
same_epochs (err e) = err e
same_epochs (ok ((epoch, session_epoch), value, sess)) =
    if epoch != session_epoch
    then err (message "run/session epoch divergence")
    else ok (epoch, value, sess)

unfoldable pub takeover_both :
    ℕ → Run.Run → Session.Session → Result (ℕ × Run.Run × Session.Session)
unfolding Run.takeover Session.takeover
takeover_both epoch value sess =
    same_epochs (both (Run.takeover epoch value) (Session.takeover epoch sess))

pub record CreateCheckpointRequest : Type 0 where
  pub id : String
  pub execution_epoch : ℕ
  pub source_tree_digest : String
  pub diff_digest : String
  pub objective : String
  pub completed : List String
  pub pending : List String
  pub questions : List String
  pub last_event_sequence : ℕ
  pub external_operation_cursor : String

abbrev pub checkpoint_of : ℕ → String → Run.Run → CreateCheckpointRequest → Checkpoint
checkpoint_of now run_id value req = record {
  id = req.id;
  content = record {
    run_id = run_id;
    task_contract_digest = value.task_contract_digest;
    run_input_manifest_digest = value.run_input_manifest_digest;
    execution_epoch = req.execution_epoch;
    source_tree_digest = req.source_tree_digest;
    diff_digest = req.diff_digest;
    objective = req.objective;
    completed = req.completed;
    pending = req.pending;
    questions = req.questions;
    last_event_sequence = req.last_event_sequence;
    external_operation_cursor = req.external_operation_cursor;
  };
  created_at = now;
}

-- An error of the whole of `m`, answered with `tag`.
abbrev pub with_tag : {A : Type 0} → (Error → Error) → Exec Memory A → Exec Memory A
with_tag tag m s = let (r, s') = m s in compute tag r s'

abbrev pub raw : Error → Error
raw e = e

module _ (h : Hashing) (net : Net) where
  unfoldable pub handle_create_run :
      CreateRunRequest
      → Exec Memory (Reply (Run.Run × Run.Attempt × Session.Session × RunInputManifest))
  unfolding Run.new Run.start_attempt Session.new
  handle_create_run req = do
    refuse_if (not (is_none req.run_input.continuation)) 400
        "source continuation requires the authorized continuation endpoint"
    refuse_if (req.run_id == "" || req.task_contract_digest == "" || req.attempt_id == "") 400
        "run_id, task_contract_digest and attempt_id are required"
    refuse_if
        (req.run_input.runtime_profile == ""
          || req.run_input.tool_profile == ""
          || req.run_input.worker_profile == ""
          || req.run_input.policy_profile == "")
        400 "runtime_profile, tool_profile, worker_profile and policy_profile are required"
    let input = own_input req
    digest ← compute (λ e. public_error 500) (input_digest h input)
    task ← call net 0 store_error (λ ctx. get_task_by_digest ctx req.task_contract_digest)
    work ← call net 1 store_error (λ ctx. get_work ctx task.work_item_id)
    refuse_if (work.state != ready) 409 "work must be READY before starting a run"
    refuse_if (work.active_task_contract_digest != req.task_contract_digest) 409
        "run must use the current active task contract revision"
    let started =
        Run.start_attempt req.attempt_id net.now
          (Run.new req.run_id req.task_contract_digest digest)
    attempt ← compute (λ e. public_error 409) started.0
    let sess = Session.new req.run_id attempt.epoch
    let next = transition executing (record work { active_run_id = req.run_id })
    compute (λ e. public_error 409) next.0
    call net 2 freeze_error (λ ctx.
        create_execution_and_update_work h ctx started.1 attempt sess input work.version next.1)
    answer 201 (started.1, attempt, sess, input)

  unfoldable pub handle_get_run :
      String → Exec Memory (Reply (Run.Run × Session.Session × RunInputManifest))
  handle_get_run id = do
    (value, sess) ← call net 0 store_error (λ ctx. get_execution ctx id)
    input ←
        call net 1 store_error (λ ctx. get_run_input_by_digest ctx value.run_input_manifest_digest)
    answer 200 (value, sess, input)

  -- `mutateExecution`: the store's calls are the first three of the request.
  unfoldable pub mutate_execution :
      {A : Type 0}
      → String
      → (Run.Run → Session.Session → Result (A × Run.Run × Session.Session))
      → Exec Memory A
  mutate_execution id fn = do
    (value, sess) ← call net 0 raw (λ ctx. get_execution ctx id)
    input ← call net 1 raw (λ ctx. get_run_input_by_digest ctx value.run_input_manifest_digest)
    fail_if (has_prefix input.tool_profile "codex/sha256:") conflict
    (out, changed, steered) ← lift (fn value sess)
    call net 2 raw (λ ctx. update_execution ctx id value.version changed steered)
    pure out

  -- `writeExecution`, the request's n-th call.
  unfoldable pub write_execution : ℕ → String → Exec Memory (Reply (Run.Run × Session.Session))
  write_execution n id = do
    found ← call net n store_error (λ ctx. get_execution ctx id)
    answer 200 found

  unfoldable pub handle_pause : String → ℕ → Exec Memory (Reply (Run.Run × Session.Session))
  unfolding mutate_execution write_execution
  handle_pause id epoch = do
    _ ← with_tag mutation_error (mutate_execution id (pause_both epoch))
    write_execution 3 id

  unfoldable pub handle_resume : String → ℕ → Exec Memory (Reply (Run.Run × Session.Session))
  unfolding mutate_execution write_execution
  handle_resume id epoch = do
    _ ← with_tag mutation_error (mutate_execution id (resume_both epoch))
    write_execution 3 id

  -- The reply's owner is always "HUMAN".
  unfoldable pub handle_takeover : String → ℕ → Exec Memory (Reply ℕ)
  unfolding mutate_execution
  handle_takeover id epoch = do
    new_epoch ← with_tag mutation_error (mutate_execution id (takeover_both epoch))
    answer 200 new_epoch

  unfoldable pub handle_get_steering : String → Exec Memory (Reply SteeringCommand)
  handle_get_steering id = do
    cmd ← call net 0 store_error (λ ctx. get_steering ctx id)
    answer 200 cmd

  unfoldable pub handle_create_checkpoint :
      String → CreateCheckpointRequest → Exec Memory (Reply (Checkpoint × String))
  unfolding Run.check_epoch
  handle_create_checkpoint run_id req = do
    refuse_if (req.id == "" || req.execution_epoch == 0 || req.source_tree_digest == "") 400
        "checkpoint_id, execution_epoch and source_tree_digest are required"
    (value, sess) ← call net 0 store_error (λ ctx. get_execution ctx run_id)
    compute mutation_error (Run.check_epoch value req.execution_epoch)
    refuse_if (sess.execution_epoch != req.execution_epoch) 409
        "session execution epoch does not match run"
    let item = checkpoint_of net.now run_id value req
    digest ← call net 1 create_error (λ ctx. create_checkpoint h ctx item)
    answer 201 (item, digest)

  unfoldable pub handle_get_checkpoint : String → Exec Memory (Reply (Checkpoint × String))
  handle_get_checkpoint id = do
    found ← call net 0 store_error (λ ctx. get_checkpoint h ctx id)
    answer 200 found

  unfoldable pub handle_complete_run : String → ℕ → Exec Memory (Reply (Run.Run × Session.Session))
  unfolding Run.complete write_execution
  handle_complete_run run_id epoch = do
    (value, sess) ← call net 0 store_error (λ ctx. get_execution ctx run_id)
    let completed = Run.complete epoch value
    compute mutation_error completed.0
    task ← call net 1 store_error (λ ctx. get_task_by_digest ctx value.task_contract_digest)
    work ← call net 2 store_error (λ ctx. get_work ctx task.work_item_id)
    refuse_if
        (work.state != executing
          || work.active_task_contract_digest != value.task_contract_digest
          || work.active_run_id != run_id)
        409 "work is not executing this run/task subject"
    let next = transition verifying work
    compute (λ e. public_error 409) next.0
    call net 3 mutation_error (λ ctx.
        update_execution_and_work ctx run_id value.version completed.1 sess work.version next.1)
    write_execution 4 run_id
