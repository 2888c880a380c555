-- ===== src/Store/Executions.antt =====
-- Runs, sessions, attempts, steering and checkpoints (CreateExecution to
-- UpdateExecutionAndWorkContext of memory.go).
use engineering_platform.Prelude.{
  Bool, Context, Exec, Option, String, absent, conflict, ctx_err, empty, exists, fail_if, false,
  find, if◌then◌else◌, insert, leb, lift, modify, nat_eq, none, not, not_found, pure, some,
  string_eq, true, u64, ℕ, ◌!=◌, ◌+◌, ◌==◌, ◌>>=◌, ◌>>◌, ◌||◌,
}
use engineering_platform.Core.{RunInputManifest, WorkItem, executing, ready, work_state_eq}
use engineering_platform.Run.{Attempt, Run}
use engineering_platform.Session.{Checkpoint, Session, SteeringCommand}
use engineering_platform.Digests.{Hashing, input_digest}
use engineering_platform.Store.{Memory, authorized}

-- if value.Version == 0 { value.Version = 1 }
abbrev first_version : Run → Run
first_version value = record value { version = if value.version == 0 then 1 else value.version }

check_no_execution : String → String → Exec Memory Unit
check_no_execution run_id input_digest = do
  absent (λ m. m.runs run_id) exists
  absent (λ m. m.sessions run_id) exists
  absent (λ m. m.run_inputs input_digest) exists

unfoldable pub create_execution : Hashing → Run → Session → RunInputManifest → Exec Memory Unit
unfolding check_no_execution
create_execution h value sess input = do
  digest ← lift (input_digest h input)
  fail_if
      (digest != value.run_input_manifest_digest
        || input.run_id != value.id
        || input.task_contract_digest != value.task_contract_digest)
      conflict
  check_no_execution value.id digest
  modify λ m. record m {
    runs = insert value.id (first_version value) m.runs;
    sessions = insert value.id sess m.sessions;
    run_inputs = insert digest input m.run_inputs;
  }

abbrev is_none : {A : Type 0} → Option A → Bool
is_none none = true
is_none (some a) = false

-- The run, its attempt, session and input do not belong together.
mismatched : String → Run → Attempt → Session → RunInputManifest → Bool
mismatched digest value attempt sess input =
    digest != value.run_input_manifest_digest
    || input.run_id != value.id
    || input.task_contract_digest != value.task_contract_digest
    || attempt.id != value.current_attempt_id
    || attempt.epoch != value.current_epoch
    || sess.run_id != value.id
    || sess.execution_epoch != value.current_epoch

unfoldable pub create_execution_and_update_work :
    Hashing → Context → Run → Attempt → Session → RunInputManifest → ℕ → WorkItem → Exec Memory Unit
unfolding check_no_execution mismatched
create_execution_and_update_work h ctx value attempt sess input expected_version work = do
  ctx_err ctx 0
  fail_if (not (is_none input.continuation)) conflict
  digest ← lift (input_digest h input)
  fail_if (mismatched digest value attempt sess input) conflict
  fail_if
      (work.state != executing
        || work.active_task_contract_digest != value.task_contract_digest
        || work.active_run_id != value.id)
      conflict
  ctx_err ctx 1
  current ← find (λ m. m.works work.id) not_found
  fail_if
      (current.version != expected_version
        || current.state != ready
        || current.active_task_contract_digest != value.task_contract_digest
        || current.active_run_id != "")
      conflict
  find (λ m. m.tasks_by_digest value.task_contract_digest) not_found >>= λ _.
      check_no_execution value.id digest
  modify λ m. record m {
    runs = insert value.id (first_version value) m.runs;
    sessions = insert value.id sess m.sessions;
    run_inputs = insert digest input m.run_inputs;
    attempts = insert value.id (insert attempt.id attempt empty) m.attempts;
    works = insert work.id (record work { version = u64 (expected_version + 1) }) m.works;
  }

unfoldable pub get_attempt : Context → String → String → Exec Memory Attempt
get_attempt ctx run_id attempt_id = do
  authorized ctx
  items ← find (λ m. m.attempts run_id) not_found
  find (λ _. items attempt_id) not_found

unfoldable pub get_execution : Context → String → Exec Memory (Run × Session)
get_execution ctx id = do
  authorized ctx
  value ← find (λ m. m.runs id) not_found
  sess ← find (λ m. m.sessions id) not_found
  pure (value, sess)

unfoldable pub get_run_input_by_digest : Context → String → Exec Memory RunInputManifest
get_run_input_by_digest ctx digest = do authorized ctx; find (λ m. m.run_inputs digest) not_found

unfoldable pub create_checkpoint : Hashing → Context → Checkpoint → Exec Memory String
create_checkpoint h ctx item = do
  ctx_err ctx 0
  digest ← lift (h.hash_checkpoint item.content)
  ctx_err ctx 1
  absent (λ m. m.checkpoints item.id) exists
  absent (λ m. m.checkpoint_digests digest) exists
  modify λ m. record m {
    checkpoints = insert item.id item m.checkpoints;
    checkpoint_digests = insert digest item.id m.checkpoint_digests;
  }
  pure digest

unfoldable pub get_checkpoint : Hashing → Context → String → Exec Memory (Checkpoint × String)
get_checkpoint h ctx id = do
  authorized ctx
  item ← find (λ m. m.checkpoints id) not_found
  digest ← lift (h.hash_checkpoint item.content)
  pure (item, digest)

abbrev other_subject : Run → Run → Bool
other_subject current value =
    current.task_contract_digest != value.task_contract_digest
    || current.run_input_manifest_digest != value.run_input_manifest_digest

unfoldable pub update_execution : Context → String → ℕ → Run → Session → Exec Memory Unit
update_execution ctx id expected_version value sess = do
  authorized ctx
  current ← find (λ m. m.runs id) not_found
  find (λ m. m.sessions id) not_found >>= λ _. pure tt
  fail_if (current.version != expected_version) conflict
  fail_if (other_subject current value) conflict
  modify λ m. record m {
    runs = insert id (record value { version = u64 (expected_version + 1) }) m.runs;
    sessions = insert id sess m.sessions;
  }

unfoldable pub record_steering :
    Context → String → ℕ → Run → Session → SteeringCommand → Exec Memory Unit
record_steering ctx id expected_version value sess cmd = do
  authorized ctx
  current ← find (λ m. m.runs id) not_found
  current_session ← find (λ m. m.sessions id) not_found
  fail_if (current.version != expected_version) conflict
  fail_if
      (other_subject current value
        || value.id != id
        || sess.run_id != id
        || cmd.run_id != id
        || cmd.execution_epoch != current.current_epoch
        || sess.execution_epoch != current.current_epoch
        || sess.last_sequence != cmd.sequence
        || leb cmd.sequence current_session.last_sequence)
      conflict
  absent (λ m. m.steering_commands cmd.id) exists
  modify λ m. record m {
    runs = insert id (record value { version = u64 (expected_version + 1) }) m.runs;
    sessions = insert id sess m.sessions;
    steering_commands = insert cmd.id cmd m.steering_commands;
  }

unfoldable pub get_steering : Context → String → Exec Memory SteeringCommand
get_steering ctx id = do authorized ctx; find (λ m. m.steering_commands id) not_found

unfoldable pub update_execution_and_work :
    Context → String → ℕ → Run → Session → ℕ → WorkItem → Exec Memory Unit
update_execution_and_work ctx id expected_run_version value sess expected_work_version work = do
  authorized ctx
  current ← find (λ m. m.runs id) not_found
  find (λ m. m.sessions id) not_found >>= λ _. pure tt
  current_work ← find (λ m. m.works work.id) not_found
  fail_if (current.version != expected_run_version || current_work.version != expected_work_version)
      conflict
  fail_if (other_subject current value) conflict
  fail_if
      (current_work.active_task_contract_digest != value.task_contract_digest
        || current_work.active_run_id != value.id
        || work.active_task_contract_digest != value.task_contract_digest
        || work.active_run_id != value.id)
      conflict
  modify λ m. record m {
    runs = insert id (record value { version = u64 (expected_run_version + 1) }) m.runs;
    sessions = insert id sess m.sessions;
    works = insert work.id (record work { version = u64 (expected_work_version + 1) }) m.works;
  }
