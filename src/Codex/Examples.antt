-- ===== src/Codex/Examples.antt =====
-- A turn that is steered once, from the binding to the sealed transcript, at concrete values.
use engineering_platform.Recovery
use engineering_platform.Run
use engineering_platform.Session
use engineering_platform.Workerqueue
use engineering_platform.ProcessScope
use engineering_platform.Codex.Database.{
  CodexRow, Database, Digesting, InboxRecord, RuntimeRow, acknowledged, authorized, end, lock_codex,
  or_fail, require, scan_codex, scan_inbox, worker_run_active, written, ◌>>=◌,
}
use engineering_platform.Codex.{
  ControlBinding, ControlClose, ControlInput, ControlSettlement, Token, active, binding_eq,
  close_eq, completed, delivery_state_eq, kind_eq, sealed, steer, steer_accepted, token_eq, turn_eq,
}
use engineering_platform.Codex.Profiles.{Profile, profile_digest, valid_codex_version}
use engineering_platform.Codex.Transactions.{
  bind_control, claim_control, close_control, control_runtime, lock_control_runtime, queue_control,
  scan_control, sealed_by, settle_control, transcript_of,
}
use engineering_platform.Codex.Controls.{
  by_sequence, close_command, close_commands, enter, find_command, first_queued, matches_control,
  set_command,
}
use engineering_platform.Codex.Checks.{
  bad_authority, bounded_id, valid_token, validate_binding, validate_delivery, validate_input,
}
use engineering_platform.Codex.Transcripts.{
  allows_delivery, bad_deliveries, bad_delivery, continuable, transcript_digest, validate_close,
}
use engineering_platform.Codex.History.{History, binds, claims, closes, queues, settles, start}
use engineering_platform.Codex.Ordered.{History-IsOrdered, IsOrdered}
use engineering_platform.Codex.Closing.{close_control-succeeds}
use engineering_platform.Codex.Single.{
  History-IsSingle, IsSingle, allows_delivery-accepted, pending,
}
use engineering_platform.Canonical.{matches_name, strip_prefix, valid_digest}
use engineering_platform.Prelude.{
  All, String, [], arith, bounded, contains, contains_any, false, is_blank, is_ok, nat_eq, none, ok,
  refl, some, string_eq, true, ℕ, ◌+◌, ◌≡◌,
}

abbrev digest : String
digest = "sha256:aaaaaaaaaaaaaaaaaaaaaaaaaaaaaaaaaaaaaaaaaaaaaaaaaaaaaaaaaaaaaaaa"

abbrev hashes : Digesting
hashes = record {
  config = record {
    provider_config_digest = digest;
    engineering_config_digest = digest;
    hash_profile = λ p. ok digest;
  };
  hashing = record {
    hash_task = λ t. ok digest;
    hash_plan = λ p. ok digest;
    hash_input = λ i. ok digest;
    hash_checkpoint = λ c. ok digest;
  };
  hash_intent = λ i. ok digest;
  hash_payload = λ p. ok digest;
  hash_transcript = λ t. ok digest;
}

abbrev token : Token
token = record {
  id = "aaaaaaaaaaaaaaaaaaaaaaaaaaaaaaaaaaaaaaaaaaaaaaaaaaaaaaaaaaaaaaaa";
  run_id = "run-1";
  worker_profile = "linux";
  profile_digest = digest;
  recovery_epoch = 0;
}

abbrev profile : Profile
profile = record {
  version = 3;
  provider = record {
    version = 1;
    provider_id = "openai-codex";
    credential_mode = "chatgpt-session";
    execution_mode = "trusted-self-hosted";
    provider_config_digest = digest;
  };
  codex_version = "0.1.2-beta";
  binary_digest = digest;
  qualification_digest = digest;
  engineering_config_digest = digest;
  model = "model";
  sandbox = "workspace-write";
  approval_policy = "never";
  tool_network = false;
}

abbrev inbox_row : InboxRecord
inbox_row = record {
  run_id = "run-1";
  owner = "worker";
  digest = digest;
  profile = "linux";
  intent = record {
    run_id = "run-1";
    task_digest = digest;
    input_digest = digest;
    execution_epoch = 1;
  };
}

abbrev codex_row : CodexRow
codex_row = record {
  token = token;
  profile = profile;
  worker = "worker";
  state = authorized;
  until = 100;
}

abbrev rows : Database
rows = record {
  run_id = "run-1";
  platform = record { epoch = 0; mode = Recovery.normal };
  inbox = some inbox_row;
  run = some (record {
    id = "run-1";
    task_contract_digest = digest;
    run_input_manifest_digest = digest;
    state = Run.running;
    version = 1;
    current_epoch = 1;
    current_attempt_id = "attempt-1";
    control_owner = "RUNTIME";
  });
  session = some (record {
    run_id = "run-1";
    execution_epoch = 1;
    owner = Session.runtime;
    last_sequence = 0;
    paused = false;
  });
  execution = some codex_row;
  runtime = none;
  commands = [];
  numbers = [];
  elsewhere = λ id. none;
  trail = [];
}

abbrev binding : ControlBinding
binding = record { token = token; execution_epoch = 1; thread_id = "thread"; turn_id = "turn" }

abbrev input : ControlInput
input = record {
  id = "control-1";
  execution_epoch = 1;
  sequence = 1;
  actor = "operator";
  thread_id = "thread";
  turn_id = "turn";
  text = "mind the tests";
}

abbrev closure : ControlClose
closure = record {
  binding = binding;
  turn_status = completed;
  process_scope = record {
    version = 1;
    mechanism = "linux-user-pid-namespace-init-v1";
    host_pid = 7;
    namespace_id = 2;
    parent_namespace_id = 1;
    started_at = 1;
    reaped_at = 30;
    init_reaped = true;
  };
}

abbrev settlement : ControlSettlement
settlement = record { binding = binding; id = "control-1"; outcome = steer_accepted }

abbrev after_bind : Database
after_bind = (end acknowledged (bind_control hashes "worker" binding 5 rows) rows).1

abbrev after_queue : Database
after_queue =
    (end acknowledged (queue_control hashes "run-1" steer input 6 7 after_bind) after_bind).1

abbrev after_claim : Database
after_claim =
    (end acknowledged (claim_control hashes "worker" binding 8 9 after_queue) after_queue).1

abbrev after_settle : Database
after_settle =
    (end acknowledged (settle_control hashes "worker" settlement 10 after_claim) after_claim).1

abbrev clock : ℕ → ℕ
clock n = 20 + n

abbrev after_close : Database
after_close =
    (end acknowledged (close_control hashes "worker" closure clock after_settle) after_settle).1

bound_history : History hashes 5 after_bind
bound_history = binds (start 4 rows refl refl) (omega arith) acknowledged "worker" binding 5

queued_history : History hashes 7 after_queue
queued_history = queues bound_history (omega arith) (omega arith) acknowledged "run-1" steer input 6

claimed_history : History hashes 9 after_claim
claimed_history = claims queued_history (omega arith) acknowledged "worker" binding 8

settled_history : History hashes 10 after_settle
settled_history = settles claimed_history (omega arith) acknowledged "worker" settlement

closed_history : History hashes 20 after_close
closed_history = closes settled_history (omega arith) acknowledged "worker" closure clock

abbrev active_row : RuntimeRow
active_row = record { binding = binding; state = active; transcript = none; digest = none }

abbrev sealed_row : RuntimeRow
sealed_row = record {
  binding = binding;
  state = sealed;
  transcript = some (transcript_of closure clock after_settle);
  digest = some digest;
}

-- What the rows come to: a claim leaves the runtime open, and the closure seals a steering that was
-- accepted, which allows the delivery and is nothing to continue from.
run_through :
    (after_claim.runtime ≡ some active_row)
    × (lock_codex hashes "worker" token false 20 after_claim ≡ ok (codex_row, inbox_row))
    × (is_ok (validate_close closure) ≡ true)
    × (after_close.runtime ≡ some sealed_row)
    × (allows_delivery hashes.hash_payload hashes.hash_transcript
          (transcript_of closure clock after_settle)
        ≡ true)
    × (continuable hashes.hash_payload hashes.hash_transcript
          (transcript_of closure clock after_settle)
        ≡ false)
    × (pending after_claim.commands ≡ 1)
unfolding bind_control queue_control claim_control settle_control close_control lock_codex
    lock_control_runtime control_runtime scan_control scan_codex scan_inbox worker_run_active
    validate_binding validate_input validate_delivery bad_authority validate_close transcript_digest
    bad_deliveries bad_delivery valid_token bounded_id profile_digest valid_codex_version
    by_sequence enter first_queued find_command set_command close_commands close_command
    matches_control is_blank contains_any bounded valid_digest strip_prefix matches_name contains
    ProcessScope.validate ProcessScope.quiescent Workerqueue.intent_digest Workerqueue.valid_profile
    ◌>>=◌ require or_fail allows_delivery continuable
run_through = (refl, refl, refl, refl, refl, refl, refl)

close_control-succeeds_example :
    close_control hashes "worker" closure clock after_claim
    ≡ ok (
        written
          (transcript_of closure clock after_claim)
          (sealed_by closure clock digest after_claim))
close_control-succeeds_example =
    close_control-succeeds hashes "worker" closure clock active_row (codex_row, inbox_row) digest
      claimed_history run_through.0 refl refl run_through.2 run_through.1 (λ n. omega arith)
      (λ n. omega arith) refl

allows_delivery-accepted_example :
    All (λ d. (d.payload.kind ≡ steer) × (d.state ≡ steer_accepted)) after_close.commands
    × (closure.turn_status ≡ completed)
    × (closure.process_scope.init_reaped ≡ true)
allows_delivery-accepted_example =
    allows_delivery-accepted hashes sealed_row (transcript_of closure clock after_settle)
      closed_history run_through.3 refl refl run_through.4

History-IsSingle_example : IsSingle hashes after_claim
History-IsSingle_example = History-IsSingle hashes claimed_history

History-IsOrdered_example : IsOrdered after_close
History-IsOrdered_example = History-IsOrdered hashes closed_history
