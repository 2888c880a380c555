-- ===== src/Workerqueue.antt =====
-- internal/workerqueue/model.go: what a worker is assigned, and the record by which worker and server
-- agree that it is what was frozen. The digests are parameters.
pub mod Same
mod Examples
use engineering_platform.Core
use engineering_platform.Prelude.{
  Bool, Error, Result, String, all_codes, codes, err, false, fits, if◌then◌else◌, is_empty, length,
  message, nat_eq, not, ok, string_eq, ℕ, ◌!=◌, ◌&&◌, ◌==◌, ◌||◌,
}
use engineering_platform.Canonical.{is_hex, matches_name, valid_digest}
use engineering_platform.Core.{RunInputManifest, TaskContract, work_state_eq}
use engineering_platform.Digests.{Hashing, input_digest}

pub record Intent : Type 0 where
  pub run_id : String
  pub task_digest : String
  pub input_digest : String
  pub execution_epoch : ℕ

-- An `inbox_id` is an int64, and one that is not positive is 0 here.
pub record Token : Type 0 where
  pub profile : String
  pub inbox_id : ℕ
  pub generation : ℕ
  pub recovery_epoch : ℕ

pub record Assignment : Type 0 where
  pub token : Token
  pub lease_until : ℕ
  pub intent : Intent
  pub intent_digest : String
  pub input : RunInputManifest
  pub task : TaskContract

pub record Validation : Type 0 where
  pub protocol : String
  pub intent_digest : String
  pub input_digest : String
  pub task_digest : String
  pub context_count : ℕ
  pub context_bytes_verified : Bool
  pub execution_started : Bool

pub record Report : Type 0 where
  pub token : Token
  pub validation_digest : String

pub record Receipt : Type 0 where
  pub token : Token
  pub worker : String
  pub kind : String
  pub validation : Validation
  pub received_at : ℕ

abbrev identity_error : Error
identity_error = message "worker input identity mismatch"

-- ^[A-Za-z0-9][A-Za-z0-9._:/-]{0,191}$
unfoldable pub valid_profile : String → Bool
valid_profile profile = matches_name (codes "._:/-") 191 (codes profile)

unfoldable pub full_commit : String → Bool
full_commit v = length (codes v) == 40 && all_codes is_hex (codes v)

unfoldable pub valid_token : Token → Bool
unfolding valid_profile
valid_token t = t.inbox_id != 0 && t.generation != 0 && valid_profile t.profile

abbrev same_token : Token → Token → Bool
same_token a b =
    a.profile == b.profile
    && a.inbox_id == b.inbox_id
    && a.generation == b.generation
    && a.recovery_epoch == b.recovery_epoch

abbrev same_bool : Bool → Bool → Bool
same_bool a b = if a then b else not b

abbrev same_validation : Validation → Validation → Bool
same_validation a b =
    a.protocol == b.protocol
    && a.intent_digest == b.intent_digest
    && a.input_digest == b.input_digest
    && a.task_digest == b.task_digest
    && a.context_count == b.context_count
    && same_bool a.context_bytes_verified b.context_bytes_verified
    && same_bool a.execution_started b.execution_started

-- if err != nil || bad { return ErrIdentity }
abbrev demand : {A : Type 0} → Result A → (A → Bool) → Result A
demand (err e) bad = err identity_error
demand (ok a) bad = if bad a then err identity_error else ok a

abbrev then_with : {A B : Type 0} → Result A → (A → Result B) → Result B
then_with (err e) f = err e
then_with (ok a) f = f a

module _ (h : Hashing) (hash_intent : Intent → Result String) where
  unfoldable pub intent_digest : Intent → Result String
  unfolding valid_digest
  intent_digest i =
      if i.run_id == ""
        || not (fits i.run_id 256)
        || i.execution_epoch == 0
        || not (valid_digest i.task_digest)
        || not (valid_digest i.input_digest)
      then err identity_error
      else hash_intent i

  bad_intent : Assignment → String → Bool
  bad_intent a digest = digest != a.intent_digest || not (valid_token a.token)

  bad_input : Assignment → String → Bool
  bad_input a digest =
      digest != a.intent.input_digest
      || a.input.run_id != a.intent.run_id
      || a.input.task_contract_digest != a.intent.task_digest

  bad_task : Assignment → String → Bool
  bad_task a digest =
      digest != a.intent.task_digest
      || a.task.id == ""
      || a.task.work_item_id == ""
      || not (full_commit a.task.base_commit)
      || is_empty a.task.acceptance_criteria

  bad_profiles : Assignment → Bool
  bad_profiles a =
      a.token.profile != a.input.worker_profile
      || a.input.runtime_profile == ""
      || a.input.tool_profile == ""
      || not (valid_profile a.input.worker_profile)
      || a.input.policy_profile == ""

  abbrev validation_of : Assignment → String → String → String → Validation
  validation_of a digest input task = record {
    protocol = "worker-input-v1";
    intent_digest = digest;
    input_digest = input;
    task_digest = task;
    context_count = length a.input.context_refs;
    context_bytes_verified = false;
    execution_started = false;
  }

  unfoldable pub validate : Assignment → Result Validation
  unfolding bad_intent bad_input bad_task bad_profiles intent_digest input_digest
  validate a = then_with (demand (intent_digest a.intent) (bad_intent a)) λ digest.
      then_with (demand (input_digest h a.input) (bad_input a)) λ input.
        then_with (demand (h.hash_task a.task) (bad_task a)) λ task.
          if bad_profiles a then err identity_error else ok (validation_of a digest input task)

  unfoldable pub new_report : (Validation → Result String) → Assignment → Result Report
  unfolding validate
  new_report hash_validation a = then_with (validate a) λ v.
      then_with (hash_validation v)
        λ digest. ok (record { token = a.token; validation_digest = digest })

  unfoldable pub verify_receipt : Assignment → Receipt → Result (Unit {0})
  unfolding validate
  verify_receipt a r = elim (validate a) [
    | err e ↦ err (message "invalid admission receipt")
    | ok v ↦
        if not (same_token r.token a.token)
          || r.kind != "INPUT_VALIDATED"
          || not (same_validation r.validation v)
          || r.worker == ""
          || r.received_at == 0
        then err (message "invalid admission receipt")
        else ok tt
  ]
