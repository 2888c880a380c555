-- ===== src/Codex/Transactions.antt =====
-- The transactions of internal/store/postgres/codex_controls.go. `locked` is the reading of the clock
-- at which a lease is tried, and `now` a later one that is stored.
use engineering_platform.Session
use engineering_platform.Codex.Database.{
  Database, Digesting, Outcome, RuntimeRow, control_bound, controls_sealed, identity_error, live,
  lock_codex, or_fail, recorded, require, scan_codex, select, steering_dispatching,
  steering_observed, steering_queued, unchanged, written, ◌>>=◌, ◌>>◌,
}
use engineering_platform.Codex.{
  ControlBinding, ControlClose, ControlDelivery, ControlInput, ControlKind, ControlRuntime,
  ControlSettlement, ControlTranscript, DeliveryState, RuntimeState, Token, active, binding_eq,
  close_eq, delivery_state_eq, dispatching, kind_eq, queued, sealed, steer, token_eq, turn_eq,
}
use engineering_platform.Codex.Controls.{
  advance, all_ok, any_interrupt, any_pending, by_sequence, close_commands, conflicted,
  count_version, find_command, first_queued, is_active, is_outcome, matches_control, numbered,
  repeated, set_command,
}
use engineering_platform.Prelude.{
  Bool, List, Option, Result, String, [], err, exists, false, if◌then◌else◌, is_ok, is_some, leb,
  length, nat_eq, none, not, not_found, ok, sentinel, some, string_eq, true, ℕ, ◌!=◌, ◌&&◌, ◌++◌,
  ◌-◌, ◌==◌, ◌||◌, ◌∷◌,
}
use engineering_platform.Codex.Checks.{validate_binding, validate_delivery, validate_input}
use engineering_platform.Codex.Transcripts.{max_controls, transcript_digest, validate_close}

-- WHERE execution_id=$1
abbrev pub of_execution : String → Option RuntimeRow → Option RuntimeRow
of_execution id none = none
of_execution id (some r) = if r.binding.token.id == id then some r else none

-- The transcript that is sealed, of the commands as they are read behind the update.
abbrev pub transcript_of : ControlClose → (ℕ → ℕ) → Database → ControlTranscript
transcript_of c clock db = record {
  version = 2;
  close = c;
  deliveries = by_sequence (close_commands c.turn_status clock db.commands);
}

abbrev pub sealed_by : ControlClose → (ℕ → ℕ) → String → Database → Database
sealed_by c clock digest db = record db {
  commands = close_commands c.turn_status clock db.commands;
  runtime = some (record {
    binding = c.binding;
    state = sealed;
    transcript = some (transcript_of c clock db);
    digest = some digest;
  });
  trail = controls_sealed (transcript_of c clock db) ∷ db.trail;
}

abbrev pub bound : ControlBinding → Database → Database
bound b db = record db {
  runtime = some (record { binding = b; state = active; transcript = none; digest = none });
  trail = control_bound b ∷ db.trail;
}

abbrev pub appended : ControlDelivery → Session.Session → Database → Database
appended d s db = record db {
  commands = db.commands ++ d ∷ [];
  session = some s;
  run = count_version db.run;
  trail = steering_queued d ∷ db.trail;
}

-- The row of a command with this name that is a live control, of this run or another.
abbrev pub named : String → Database → Option ControlDelivery
named id db = elim (find_command id db.commands) [
  | some d ↦ some d
  | none ↦ elim (db.elsewhere id) [
    | some f ↦ elim f [ recorded ↦ none | live d ↦ some d ]
    | none ↦ none
  ]
]

abbrev pub is_taken : ControlDelivery → Database → Bool
is_taken d db =
    is_some (find_command d.command.id db.commands)
    || is_some (db.elsewhere d.command.id)
    || repeated d.command.execution_epoch d.command.sequence db.commands
    || numbered d.command.execution_epoch d.command.sequence db.numbers

abbrev pub too_many : ControlKind → List ControlDelivery → Bool
too_many kind ds =
    leb max_controls (length ds)
    || (kind == steer && leb (max_controls - 1) (length ds))
    || any_interrupt ds

abbrev pub input_delivery :
    String → ControlBinding → ControlKind → ControlInput → String → ℕ → ControlDelivery
input_delivery run_id b kind i digest now = record {
  command = record {
    id = i.id;
    run_id = run_id;
    execution_epoch = i.execution_epoch;
    sequence = i.sequence;
    actor = i.actor;
    content_digest = digest;
    created_at = now;
  };
  payload = record { binding = b; kind = kind; text = i.text };
  state = queued;
  dispatched_at = none;
  resolved_at = none;
}

abbrev pub insert_control : ControlDelivery → Database → Result (Outcome ControlDelivery)
insert_control d db = do
  require (not (is_taken d db)) (sentinel exists)
  s ← or_fail (advance d.command.execution_epoch d.command.sequence db.session) conflicted
  ok (written d (appended d s db))

abbrev pub answer_sealed :
    ControlClose → Option ControlTranscript → Result (Outcome ControlTranscript)
answer_sealed c none = err identity_error
answer_sealed c (some t) = require (t.close == c) conflicted >> ok (unchanged t)

abbrev pub binding_of : Token → ControlInput → ControlBinding
binding_of token i = record {
  token = token;
  execution_epoch = i.execution_epoch;
  thread_id = i.thread_id;
  turn_id = i.turn_id;
}

abbrev pub claimed : String → ControlDelivery → Database → Database
claimed id d db = record db {
  commands = set_command id d db.commands;
  trail = steering_dispatching d ∷ db.trail;
}

abbrev pub noted : String → ControlDelivery → Database → Database
noted id d db = record db {
  commands = set_command id d db.commands;
  trail = steering_observed d ∷ db.trail;
}

module _ (h : Digesting) where
  -- `scanControl`
  unfoldable pub scan_control : ControlDelivery → Result ControlDelivery
  unfolding validate_delivery
  scan_control d = if is_ok (validate_delivery h.hash_payload d) then ok d else err identity_error

  abbrev pub scan_sealed :
      RuntimeRow → Option ControlTranscript → Option String → Result ControlRuntime
  scan_sealed r (some t) (some stored) =
      elim (transcript_digest h.hash_payload h.hash_transcript t) [
        | err e ↦ err identity_error
        | ok actual ↦
            if actual != stored || t.close.binding != r.binding
            then err identity_error
            else ok (record {
              binding = r.binding;
              state = sealed;
              transcript = some t;
              digest = actual;
            })
      ]
  scan_sealed r _ _ = err identity_error

  abbrev pub scan_state : RuntimeRow → RuntimeState → Result ControlRuntime
  scan_state r sealed = scan_sealed r r.transcript r.digest
  scan_state r active =
      if is_some r.transcript || is_some r.digest
      then err identity_error
      else ok (record { binding = r.binding; state = active; transcript = none; digest = "" })
  scan_state r (RuntimeState.other s) = err identity_error

  -- `controlRuntime`
  unfoldable pub control_runtime : RuntimeRow → Result ControlRuntime
  unfolding validate_binding
  control_runtime r =
      if is_ok (validate_binding r.binding) then scan_state r r.state else err identity_error

  -- `lockControlRuntime`
  unfoldable pub lock_control_runtime : ControlBinding → Database → Result ControlRuntime
  unfolding control_runtime
  lock_control_runtime b db = do
    stored ← or_fail (of_execution b.token.id db.runtime) (sentinel not_found)
    r ← control_runtime stored
    require (r.binding == b) identity_error
    ok r

  abbrev pub bind_row : ControlBinding → Database → Option RuntimeRow → Result (Outcome (Unit {0}))
  bind_row b db none = ok (written tt (bound b db))
  bind_row b db (some stored) = do
    old ← control_runtime stored
    require (old.binding == b && is_active old.state) conflicted
    ok (unchanged tt)

  -- `BindCodexControl`
  unfoldable pub bind_control : String → ControlBinding → ℕ → Database → Result (Outcome (Unit {0}))
  unfolding lock_codex validate_binding control_runtime
  bind_control subject b locked db = do
    require (is_ok (validate_binding b)) identity_error
    (row, inbox) ← lock_codex h subject b.token true locked db
    require (b.execution_epoch == inbox.intent.execution_epoch) identity_error
    bind_row b db (of_execution b.token.id db.runtime)

  abbrev pub queue_new :
      String → ControlKind → ControlInput → ℕ → ℕ → Database → Result (Outcome ControlDelivery)
  queue_new run_id kind i locked now db = do
    stored ← or_fail (select run_id db db.execution) (sentinel not_found)
    row ← scan_codex h stored
    (_, inbox) ← lock_codex h row.worker row.token true locked db
    let b : ControlBinding = binding_of row.token i
    r ← lock_control_runtime b db
    require (is_active r.state && inbox.intent.execution_epoch == i.execution_epoch) conflicted
    require (not (too_many kind db.commands)) conflicted
    digest ← h.hash_payload (record { binding = b; kind = kind; text = i.text })
    insert_control (input_delivery run_id b kind i digest now) db

  abbrev pub answer_old :
      String → ControlKind → ControlInput → ControlDelivery → Result (Outcome ControlDelivery)
  answer_old run_id kind i stored = do
    old ← scan_control stored
    require (matches_control old run_id kind i) conflicted
    ok (unchanged old)

  abbrev pub queue_named :
      String
      → ControlKind
      → ControlInput
      → ℕ
      → ℕ
      → Database
      → Option ControlDelivery
      → Result (Outcome ControlDelivery)
  queue_named run_id kind i locked now db (some stored) = answer_old run_id kind i stored
  queue_named run_id kind i locked now db none = queue_new run_id kind i locked now db

  -- `QueueCodexControl`
  unfoldable pub queue_control :
      String → ControlKind → ControlInput → ℕ → ℕ → Database → Result (Outcome ControlDelivery)
  unfolding validate_input find_command scan_control
  queue_control run_id kind i locked now db = do
    require (is_ok (validate_input i kind)) identity_error
    queue_named run_id kind i locked now db (named i.id db)

  abbrev pub dispatch_next :
      ℕ → Database → Option ControlDelivery → Result (Outcome (Option ControlDelivery))
  dispatch_next now db none = ok (unchanged none)
  dispatch_next now db (some stored) = do
    d ← scan_control stored
    d' ← scan_control (record d { state = dispatching; dispatched_at = some now })
    ok (written (some d') (claimed d.command.id d' db))

  -- `ClaimCodexControl`
  unfoldable pub claim_control :
      String → ControlBinding → ℕ → ℕ → Database → Result (Outcome (Option ControlDelivery))
  unfolding lock_codex lock_control_runtime by_sequence first_queued scan_control set_command
  claim_control subject b locked now db = do
    lock_codex h subject b.token true locked db >>= λ _. ok tt
    r ← lock_control_runtime b db
    require (is_active r.state) conflicted
    require (not (any_pending db.commands)) conflicted
    dispatch_next now db (first_queued (by_sequence db.commands))

  abbrev pub observed :
      ControlDelivery → DeliveryState → ℕ → Database → Result (Outcome ControlDelivery)
  observed d outcome now db = do
    d' ← scan_control (record d { state = outcome; resolved_at = some now })
    ok (written d' (noted d.command.id d' db))

  -- `SettleCodexControl`
  unfoldable pub settle_control :
      String → ControlSettlement → ℕ → Database → Result (Outcome ControlDelivery)
  unfolding lock_codex lock_control_runtime find_command scan_control set_command
  settle_control subject r now db = do
    lock_codex h subject r.binding.token false now db >>= λ _. ok tt
    runtime ← lock_control_runtime r.binding db
    stored ← or_fail (find_command r.id db.commands) (sentinel not_found)
    d ← scan_control stored
    require (d.payload.binding == r.binding) identity_error
    require (is_outcome r.outcome d.payload.kind) identity_error
    if d.state == r.outcome
        then ok (unchanged d)
        else (require (is_active runtime.state && d.state == dispatching) conflicted
            >> observed d r.outcome now db)

  abbrev pub seal : ControlClose → (ℕ → ℕ) → Database → Result (Outcome ControlTranscript)
  seal c clock db = do
    let t : ControlTranscript = transcript_of c clock db
    all_ok (λ d. scan_control d >>= λ _. ok tt) t.deliveries
    digest ← transcript_digest h.hash_payload h.hash_transcript t
    ok (written t (sealed_by c clock digest db))

  abbrev pub close_active :
      ControlClose
      → (ℕ → ℕ)
      → ControlRuntime
      → Database
      → RuntimeState
      → Result (Outcome ControlTranscript)
  close_active c clock r db sealed = answer_sealed c r.transcript
  close_active c clock r db _ = seal c clock db

  -- `CloseCodexControl`
  unfoldable pub close_control :
      String → ControlClose → (ℕ → ℕ) → Database → Result (Outcome ControlTranscript)
  unfolding validate_close lock_codex lock_control_runtime close_commands by_sequence scan_control
  close_control subject c clock db = do
    require (is_ok (validate_close c)) identity_error
    lock_codex h subject c.binding.token false (clock 0) db >>= λ _. ok tt
    r ← lock_control_runtime c.binding db
    close_active c clock r db r.state
