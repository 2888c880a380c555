-- ===== src/Codex/Database.antt =====
-- The rows that the transactions on live controls read and write, and how one ends
-- (internal/store/postgres: `lockCodex` of codex_store.go, worker_store.go, commit_outcome.go). A
-- database here holds what belongs to one run, which has one execution at most: of the
-- rows of others, an insertion only meets the names. What is stored as JSON is read back as it was
-- written. A run's rows are locked, so the transactions on it follow one another.
use engineering_platform.Recovery
use engineering_platform.Run
use engineering_platform.Session
use engineering_platform.Workerqueue
use engineering_platform.Prelude.{
  Bool, Error, List, Option, Result, String, commit_outcome_unknown, err, false, if◌then◌else◌, ltb,
  message, nat_eq, none, not, not_found, ok, sentinel, some, string_eq, true, wrapped, ℕ, ◌!=◌,
  ◌&&◌, ◌==◌, ◌||◌,
}
use engineering_platform.Digests.{Hashing}
use engineering_platform.Codex.{
  ControlBinding, ControlDelivery, ControlPayload, ControlTranscript, RuntimeState, Token,
  binding_eq, close_eq, delivery_state_eq, kind_eq, token_eq, turn_eq,
}
use engineering_platform.Codex.Checks.{valid_token}
use engineering_platform.Codex.Profiles.{Configuration, Profile, profile_digest}

infixl 5 ◌>>=◌ ◌>>◌
unfoldable pub ◌>>=◌ : {A B : Type 0} → Result A → (A → Result B) → Result B
ok a >>= f = f a
err e >>= f = err e

abbrev pub ◌>>◌ : {B : Type 0} → Result (Unit {0}) → Result B → Result B
m >> k = m >>= λ _. k

unfoldable pub require : Bool → Error → Result (Unit {0})
require true e = ok tt
require false e = err e

unfoldable pub or_fail : {A : Type 0} → Option A → Error → Result A
or_fail none e = err e
or_fail (some a) e = ok a

abbrev pub identity_error : Error
identity_error = message "worker input identity mismatch"

pub data ExecutionState : Type 0 where
  authorized finished unknown abandoned_reconciled stopped : ExecutionState

abbrev is_authorized : ExecutionState → Bool
is_authorized authorized = true
is_authorized _ = false

-- A row of `worker_codex_executions`, less what only other transactions read.
pub record CodexRow : Type 0 where
  pub token : Token
  pub profile : Profile
  pub worker : String
  pub state : ExecutionState
  pub until : ℕ

-- A row of `worker_inbox`, less what only other transactions read.
pub record InboxRecord : Type 0 where
  pub run_id : String
  pub owner : String
  pub digest : String
  pub profile : String
  pub intent : Workerqueue.Intent

-- A row of `worker_codex_runtime`; its `execution_id` is the one of the binding.
pub record RuntimeRow : Type 0 where
  pub binding : ControlBinding
  pub state : RuntimeState
  pub transcript : Option ControlTranscript
  pub digest : Option String

-- Another command that has a name: one that is only recorded, or a live control of another run.
pub data Foreign : Type 0 where
  recorded : Foreign
  live : ControlDelivery → Foreign

-- An event of the audit journal, with what its digest is taken of.
pub data Entry : Type 0 where
  control_bound : ControlBinding → Entry
  steering_queued steering_dispatching steering_observed : ControlDelivery → Entry
  controls_sealed : ControlTranscript → Entry

-- `commands` are the live controls of the run in the order of insertion, and `numbers` the epochs and
-- sequence numbers of its commands that are only recorded.
pub record Database : Type 0 where
  pub run_id : String
  pub platform : Recovery.Manager
  pub inbox : Option InboxRecord
  pub run : Option Run.Run
  pub session : Option Session.Session
  pub execution : Option CodexRow
  pub runtime : Option RuntimeRow
  pub commands : List ControlDelivery
  pub numbers : List (ℕ × ℕ)
  pub elsewhere : String → Option Foreign
  pub trail : List Entry

-- What a transaction answers, and what it writes if it comes to a commit.
pub data Outcome (A : Type 0) : Type 0 where
  unchanged : A → Outcome A
  written : A → Database → Outcome A

-- What the commit comes to: without an acknowledgement it may have happened or not.
pub data Commit : Type 0 where
  acknowledged : Commit
  unacknowledged : Bool → Commit

abbrev pub settle_commit : {A : Type 0} → Commit → A → Database → Database → Result A × Database
settle_commit acknowledged a db db' = (ok a, db')
settle_commit (unacknowledged happened) a db db' =
    (err (wrapped commit_outcome_unknown (message "commit")), if happened then db' else db)

-- Without a commit the deferred rollback leaves everything as it was.
abbrev pub end : {A : Type 0} → Commit → Result (Outcome A) → Database → Result A × Database
end c (err e) db = (err e, db)
end c (ok (unchanged a)) db = (ok a, db)
end c (ok (written a db')) db = settle_commit c a db db'

-- A row of the run that a query asks for.
abbrev pub select : {A : Type 0} → String → Database → Option A → Option A
select run_id db row = if run_id == db.run_id then row else none

abbrev no_rows : Error
no_rows = message "no rows in result set"

abbrev pub is_runtime : Session.ControlOwner → Bool
is_runtime Session.runtime = true
is_runtime Session.human = false

abbrev is_running : Run.State → Bool
is_running Run.running = true
is_running _ = false

abbrev is_paused : Run.State → Bool
is_paused Run.paused = true
is_paused _ = false

-- `workerRunActive`
unfoldable pub worker_run_active : Database → InboxRecord → Result (Unit {0})
worker_run_active db r = do
  value ← or_fail (select r.run_id db db.run) no_rows
  sess ← or_fail (select r.run_id db db.session) no_rows
  require
      (value.current_epoch == r.intent.execution_epoch
        && value.task_contract_digest == r.intent.task_digest
        && value.run_input_manifest_digest == r.intent.input_digest
        && sess.execution_epoch == value.current_epoch)
      identity_error
  require
      (value.control_owner == "RUNTIME"
        && is_runtime sess.owner
        && (is_running value.state || is_paused value.state))
      (message "run is terminal or no longer runtime-owned")
  require (not (is_paused value.state || sess.paused))
      (message "run or session is paused; defer without revoking intent")

-- The digests that the transactions take, as parameters.
pub record Digesting : Type 0 where
  pub config : Configuration
  pub hashing : Hashing
  pub hash_intent : Workerqueue.Intent → Result String
  pub hash_payload : ControlPayload → Result String
  pub hash_transcript : ControlTranscript → Result String

abbrev pub scan_profile : CodexRow → Result String → Result CodexRow
scan_profile r (err e) = err identity_error
scan_profile r (ok digest) =
    if not (valid_token r.token) || digest != r.token.profile_digest
    then err identity_error
    else ok r

module _ (h : Digesting) where
  -- `scanCodex`, whose profile has this digest.
  unfoldable pub scan_codex : CodexRow → Result CodexRow
  unfolding valid_token profile_digest
  scan_codex r = scan_profile r (profile_digest h.config r.profile)

  -- `scanInbox`
  unfoldable pub scan_inbox : InboxRecord → Result InboxRecord
  unfolding Workerqueue.intent_digest
  scan_inbox r = elim (Workerqueue.intent_digest h.hashing h.hash_intent r.intent) [
    | err e ↦ err identity_error
    | ok digest ↦
        if digest != r.digest || r.intent.run_id != r.run_id then err identity_error else ok r
  ]

  -- The checks of `lockCodex` that only a live execution passes, before and after its row is read.
  abbrev live_inbox : Bool → Token → InboxRecord → Database → Result (Unit {0})
  live_inbox false token r db = ok tt
  live_inbox true token r db = do
    require (Recovery.is_normal db.platform.mode && db.platform.epoch == token.recovery_epoch)
        (message "worker admission blocked by recovery")
    worker_run_active db r

  abbrev live_lease : Bool → ℕ → CodexRow → Result (Unit {0})
  live_lease false now row = ok tt
  live_lease true now row =
      require (is_authorized row.state && ltb now row.until)
        (message "worker lease is absent, expired or superseded")

  -- `lockCodex`, with the clock's reading.
  unfoldable pub lock_codex : String → Token → Bool → ℕ → Database → Result (CodexRow × InboxRecord)
  unfolding scan_codex scan_inbox worker_run_active valid_token
  lock_codex subject token is_live now db = do
    require (subject != "" && valid_token token) identity_error
    found ← or_fail (select token.run_id db db.inbox) (sentinel not_found)
    inbox ← scan_inbox found
    require (inbox.owner == subject && inbox.profile == token.worker_profile) identity_error
    live_inbox is_live token inbox db
    stored ← or_fail (select token.run_id db db.execution) (sentinel not_found)
    row ← scan_codex stored
    require (row.token == token && row.worker == subject) identity_error
    live_lease is_live now row
    ok (row, inbox)
