-- ===== src/Outbox/Examples.antt =====
-- A message at concrete values.
use engineering_platform.Prelude.{
  Error, List, Result, String, [], arith, background, err, false, is_ok, message, ok, refl, some,
  true, ◌<◌, ◌>>=◌, ◌∷◌, ◌≡◌,
}
use engineering_platform.Outbox.{
  Message, Resolution, classify, is_outcome_unknown, leased, pending, resolve, valid_risk, validate,
}
use engineering_platform.Outbox.Retries.{resolve-validate}
use engineering_platform.Outbox.Batch.{
  Dispatcher, Lease, Progress, Repository, dispatch_batch, dispatch_message, dispatch_messages,
  no_summary,
}
use engineering_platform.Outbox.Batch.Totals.{total}
use engineering_platform.Outbox.Batch.Settled.{Account, Watched, unbegun, watched}
use engineering_platform.Outbox.Batch.Accounts.{dispatch_batch-Account}
use engineering_platform.Action.{controlled_mutation, observe, other}

abbrev claimed : Message
claimed = record {
  id = 4;
  key = "key";
  topic = "run.started";
  aggregate_type = "run";
  aggregate_id = "run-1";
  payload = "{}";
  risk_class = controlled_mutation;
  state = leased;
  attempt_count = 3;
  lease_owner = "worker";
  lease_until = 50;
  lease_recovery_epoch = 1;
  next_attempt_at = 9;
  last_error = "";
  created_at = 2;
  dispatched_at = 0;
}

abbrev down : Result (Unit {0})
down = err (message "down")

abbrev resolution : Resolution
resolution = resolve (λ e. "") 5 60 5 (λ m. down) "run.started" claimed

resolve-validate_example :
    (validate resolution ≡ ok tt)
    × (resolution.state ≡ pending
        → (claimed.topic ≡ "run.started")
          × (3 < 5)
          × ((e : Error) → down ≡ err e → is_outcome_unknown e ≡ false))
resolve-validate_example =
    resolve-validate (λ e. "") 5 60 5 (λ m. down) "run.started" claimed (omega arith) (omega arith)
      (omega arith)

abbrev started : String
started = "run.started"

classified : classify "run.started" (other "") ≡ ok controlled_mutation
unfolding classify valid_risk
classified = refl

abbrev claimed_message : Message
claimed_message = record {
  id = 1;
  key = "key";
  topic = "work.created";
  aggregate_type = "";
  aggregate_id = "";
  payload = "{}";
  risk_class = observe;
  state = leased;
  attempt_count = 1;
  lease_owner = "worker";
  lease_until = 0;
  lease_recovery_epoch = 0;
  next_attempt_at = 0;
  last_error = "";
  created_at = 0;
  dispatched_at = 0;
}

-- A repository that claims two messages and settles each as the callback says.
abbrev repository : Repository (List Message)
repository = record {
  claim = λ worker limit lease s.
      (ok (claimed_message ∷ record claimed_message { topic = "other" } ∷ []), s);
  dispatch = λ timeout lease risk deliver s. (ok (deliver claimed_message).state, s);
  mark_dead_letter = λ lease reason s. (ok tt, s);
}

abbrev dispatcher : Dispatcher (List Message)
dispatcher = record {
  repository = repository;
  handlers =
      record { topic = "work.created"; risk_class = observe; handler = some (λ m. ok tt) } ∷ [];
  lease_duration = 0;
  handler_timeout = 0;
  retry_delay = 0;
  max_retry_delay = 0;
  max_attempts = 0;
}

abbrev untold : Progress (List Message)
untold = record { summary = no_summary; ledger = [] }

abbrev batch : Result (Unit {0}) × Progress (List Message)
batch = dispatch_batch (λ e. "error") dispatcher background "worker" 10 untold

-- One message is dispatched, and the one without a handler is dead-lettered.
batch_done :
    (batch.0 ≡ ok tt)
    × (batch.1.summary
        ≡ record { claimed = 2; dispatched = 1; retried = 0; dead_lettered = 1; deferred = 0 })
unfolding dispatch_batch dispatch_messages dispatch_message resolve classify valid_risk ◌>>=◌
batch_done = (refl, refl)

-- The same with the repository's answers noted.
abbrev told : Result (Unit {0}) × Progress (Watched (List Message))
told = dispatch_batch (λ e. "error") (watched dispatcher) background "worker" 10 (unbegun [])

dispatch_batch-Account_example :
    (rest : List Lease) × Account rest told.1
    × (is_ok told.0 ≡ true → (rest ≡ []) × (total told.1.summary ≡ told.1.summary.claimed))
dispatch_batch-Account_example =
    dispatch_batch-Account (λ e. "error") dispatcher background "worker" 10 []
