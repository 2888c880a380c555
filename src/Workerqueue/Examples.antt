-- ===== src/Workerqueue/Examples.antt =====
-- One intent, leased twice.
use engineering_platform.Prelude.{
  Result, String, [], contains, false, nat_eq, none, ok, refl, string_eq, ℕ, ◌∷◌, ◌≡◌,
}
use engineering_platform.Canonical.{matches_name, strip_prefix, valid_digest}
use engineering_platform.Core.{RunInputManifest, TaskContract, validate_context_refs, work_state_eq}
use engineering_platform.Digests.{Hashing, input_digest}
use engineering_platform.Workerqueue.{
  Assignment, Intent, Validation, bad_input, bad_intent, bad_profiles, bad_task, full_commit,
  intent_digest, valid_profile, valid_token, validate,
}
use engineering_platform.Workerqueue.Same.{validate_unique}

abbrev zeros : String
zeros = "sha256:0000000000000000000000000000000000000000000000000000000000000000"

abbrev hashing : Hashing
hashing = record {
  hash_task = λ t. ok zeros;
  hash_plan = λ p. ok p.id;
  hash_input = λ i. ok zeros;
  hash_checkpoint = λ c. ok c.run_id;
}

abbrev intent : Intent
intent = record { run_id = "run-1"; task_digest = zeros; input_digest = zeros; execution_epoch = 1 }

abbrev hash_intent : Intent → Result String
hash_intent i = ok i.run_id

abbrev input : RunInputManifest
input = record {
  continuation = none;
  run_id = "run-1";
  task_contract_digest = zeros;
  context_refs = [];
  runtime_profile = "runtime";
  tool_profile = "tool";
  worker_profile = "linux";
  policy_profile = "policy";
}

abbrev task : TaskContract
task = record {
  id = "task-1";
  work_item_id = "work-1";
  task_type = "FEATURE";
  capability_ids = [];
  skill_ids = [];
  skill_contract_digest = "";
  skill_guidance_version = 0;
  repository = "repository";
  base_commit = "0123456789012345678901234567890123456789";
  target_id = "target";
  target_platform = "linux-bsp";
  acceptance_criteria = "it works" ∷ [];
  allowed_actions = [];
  expected_outputs = [];
  verification_plan_id = "plan-1";
  verification_plan_digest = "plan-1";
  revision = 1;
}

-- The assignment at a generation of the lease.
abbrev leased : ℕ → Assignment
leased generation = record {
  token = record { profile = "linux"; inbox_id = 4; generation = generation; recovery_epoch = 0 };
  lease_until = 9;
  intent = intent;
  intent_digest = "run-1";
  input = input;
  task = task;
}

abbrev expected : Validation
expected = record {
  protocol = "worker-input-v1";
  intent_digest = "run-1";
  input_digest = zeros;
  task_digest = zeros;
  context_count = 0;
  context_bytes_verified = false;
  execution_started = false;
}

first : validate hashing hash_intent (leased 1) ≡ ok expected
unfolding validate bad_intent bad_input bad_task bad_profiles intent_digest input_digest
    valid_digest strip_prefix valid_token valid_profile matches_name full_commit
    validate_context_refs contains
first = refl

second : validate hashing hash_intent (leased 2) ≡ ok expected
unfolding validate bad_intent bad_input bad_task bad_profiles intent_digest input_digest
    valid_digest strip_prefix valid_token valid_profile matches_name full_commit
    validate_context_refs contains
second = refl

validate_unique_example :
    ((leased 1).intent ≡ (leased 2).intent)
    × ((leased 1).input ≡ (leased 2).input)
    × ((leased 1).task ≡ (leased 2).task)
validate_unique_example =
    validate_unique hashing hash_intent (leased 1) (leased 2) expected expected (λ d p q. refl)
      (λ d p q. refl) (λ d p q. refl) first second refl
