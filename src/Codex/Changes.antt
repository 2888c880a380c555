-- ===== src/Codex/Changes.antt =====
-- What a transaction on live controls writes, if it comes to a commit
-- (internal/store/postgres/codex_controls.go).
use engineering_platform.Session
use engineering_platform.Codex.Database.{
  CodexRow, Database, Digesting, Outcome, RuntimeRow, unchanged, written,
}
use engineering_platform.Codex.{
  ControlBinding, ControlClose, ControlDelivery, DeliveryState, dispatching, queued,
}
use engineering_platform.Codex.Transactions.{
  appended, bound, claimed, noted, of_execution, sealed_by, transcript_of,
}
use engineering_platform.Codex.Controls.{
  any_interrupt, any_pending, by_sequence, find_command, first_queued, is_active, is_outcome,
}
use engineering_platform.Codex.Checks.{validate_binding}
use engineering_platform.Codex.Transcripts.{transcript_digest}
use engineering_platform.Codex.Rules.{is_valid}
use engineering_platform.Prelude.{String, false, is_ok, length, none, ok, some, true, ℕ, ◌<◌, ◌≡◌}

abbrev pub dispatched : ℕ → ControlDelivery → ControlDelivery
dispatched now d = record d { state = dispatching; dispatched_at = some now }

abbrev pub resolved : DeliveryState → ℕ → ControlDelivery → ControlDelivery
resolved outcome now d = record d { state = outcome; resolved_at = some now }

module _ (h : Digesting) (db : Database) where
  -- The runtime's row, while it takes controls.
  pub record Active (b : ControlBinding) : Type 0 where
    pub row : RuntimeRow
    pub stored : db.runtime ≡ some row
    pub same : row.binding ≡ b
    pub is_open : is_active row.state ≡ true
    pub valid : is_ok (validate_binding b) ≡ true

module _ (h : Digesting) (now : ℕ) (db : Database) where
  pub data Change : Database → Type 0 where
    binds :
        (b : ControlBinding) (row : CodexRow)
        → is_ok (validate_binding b) ≡ true
        → of_execution b.token.id db.runtime ≡ none
        → db.execution ≡ some row
        → row.token ≡ b.token
        → Change (bound b db)
    queues :
        (d : ControlDelivery) (s s' : Session.Session)
        → Active h db d.payload.binding
        → is_valid h d ≡ true
        → d.state ≡ queued
        → d.command.created_at ≡ now
        → d.dispatched_at ≡ none
        → d.resolved_at ≡ none
        → db.session ≡ some s
        → s.last_sequence < d.command.sequence
        → s'.last_sequence ≡ d.command.sequence
        → find_command d.command.id db.commands ≡ none
        → length db.commands < 64
        → any_interrupt db.commands ≡ false
        → Change (appended d s' db)
    claims :
        (b : ControlBinding) (d : ControlDelivery)
        → Active h db b
        → first_queued (by_sequence db.commands) ≡ some d
        → any_pending db.commands ≡ false
        → is_valid h (dispatched now d) ≡ true
        → Change (claimed d.command.id (dispatched now d) db)
    settles :
        (b : ControlBinding) (id : String) (outcome : DeliveryState) (d : ControlDelivery)
        → Active h db b
        → find_command id db.commands ≡ some d
        → d.state ≡ dispatching
        → is_outcome outcome d.payload.kind ≡ true
        → is_valid h (resolved outcome now d) ≡ true
        → Change (noted d.command.id (resolved outcome now d) db)
    seals :
        (c : ControlClose) (clock : ℕ → ℕ) (digest : String)
        → Active h db c.binding
        → transcript_digest h.hash_payload h.hash_transcript (transcript_of c clock db) ≡ ok digest
        → Change (sealed_by c clock digest db)

  -- What a transaction does to the rows, whatever it answers.
  abbrev pub Writes : {A : Type 0} → Outcome A → Type 0
  Writes (unchanged a) = Unit {0}
  Writes (written a db') = Change db'
