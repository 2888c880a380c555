-- ===== src/Audit.antt =====
-- internal/audit/journal.go: the journal of events, each of which carries the digest of its content
-- and the digest of the event before. The digest is SHA-256 over JSON and is the parameter `hash`.
mod Chain
mod Examples
use engineering_platform.Prelude.{
  Exec, List, Result, String, [], err, if◌then◌else◌, is_empty, length, message, nat_eq, ok,
  string_eq, u64, ℕ, ◌!=◌, ◌++◌, ◌+◌, ◌==◌, ◌∷◌,
}

pub record Event : Type 0 where
  pub sequence : ℕ
  pub type_name : String
  pub aggregate_type : String
  pub aggregate_id : String
  pub payload_digest : String
  pub correlation_id : String
  pub causation_id : String
  pub previous_digest : String
  pub digest : String
  pub created_at : ℕ

pub record EventContent : Type 0 where
  pub sequence : ℕ
  pub type_name : String
  pub aggregate_type : String
  pub aggregate_id : String
  pub payload_digest : String
  pub correlation_id : String
  pub causation_id : String
  pub previous_digest : String

pub record Input : Type 0 where
  pub type_name : String
  pub aggregate_type : String
  pub aggregate_id : String
  pub payload_digest : String
  pub correlation_id : String
  pub causation_id : String

pub record Checkpoint : Type 0 where
  pub first_sequence : ℕ
  pub last_sequence : ℕ
  pub event_count : ℕ
  pub root_digest : String
  pub created_at : ℕ

abbrev pub content_of : ℕ → String → Input → EventContent
content_of sequence previous input = record {
  sequence = sequence;
  type_name = input.type_name;
  aggregate_type = input.aggregate_type;
  aggregate_id = input.aggregate_id;
  payload_digest = input.payload_digest;
  correlation_id = input.correlation_id;
  causation_id = input.causation_id;
  previous_digest = previous;
}

abbrev pub event_of : EventContent → String → ℕ → Event
event_of c digest now = record {
  sequence = c.sequence;
  type_name = c.type_name;
  aggregate_type = c.aggregate_type;
  aggregate_id = c.aggregate_id;
  payload_digest = c.payload_digest;
  correlation_id = c.correlation_id;
  causation_id = c.causation_id;
  previous_digest = c.previous_digest;
  digest = digest;
  created_at = now;
}

-- The input that `Verify` rebuilds an event from.
abbrev pub input_of : Event → Input
input_of e = record {
  type_name = e.type_name;
  aggregate_type = e.aggregate_type;
  aggregate_id = e.aggregate_id;
  payload_digest = e.payload_digest;
  correlation_id = e.correlation_id;
  causation_id = e.causation_id;
}

-- The digest of the last event, or the one given where there is none.
abbrev pub last_digest : String → List Event → String
last_digest previous [] = previous
last_digest previous (e ∷ es) = last_digest e.digest es

abbrev first_of : List Event → ℕ
first_of [] = 0
first_of (e ∷ es) = e.sequence

abbrev last_of : List Event → ℕ
last_of [] = 0
last_of (e ∷ []) = e.sequence
last_of (e ∷ f ∷ es) = last_of (f ∷ es)

module _ (hash : EventContent → Result String) where
  unfoldable pub build : ℕ → String → Input → ℕ → Result Event
  build sequence previous input now =
      if sequence == 0
      then err (message "audit sequence must be greater than zero")
      else if input.type_name == ""
      then err (message "audit event type is required")
      else if input.payload_digest == ""
      then err (message "audit payload digest is required")
      else elim (hash (content_of sequence previous input)) [
        | err e ↦ err e
        | ok digest ↦ ok (event_of (content_of sequence previous input) digest now)
      ]

  -- A journal is its events.
  unfoldable pub append_input : Input → ℕ → Exec (List Event) Event
  unfolding build
  append_input input now events =
      elim (build (u64 (length events + 1)) (last_digest "" events) input now) [
        | err e ↦ (err e, events)
        | ok event ↦ (ok event, events ++ event ∷ [])
      ]

  unfoldable pub append : String → String → ℕ → Exec (List Event) Event
  unfolding append_input
  append event_type payload_digest now =
      append_input
        (record {
          type_name = event_type;
          aggregate_type = "";
          aggregate_id = "";
          payload_digest = payload_digest;
          correlation_id = "";
          causation_id = "";
        })
        now

  -- One round of the loop of `Verify`, at the event of index `i`.
  unfoldable pub verify_event : ℕ → String → Event → Result (Unit {0})
  unfolding build
  verify_event i previous e =
      if e.sequence != u64 (i + 1)
      then err (message "audit sequence mismatch")
      else if e.previous_digest != previous
      then err (message "audit previous digest mismatch")
      else elim (build e.sequence e.previous_digest (input_of e) e.created_at) [
        | err x ↦ err x
        | ok rebuilt ↦
            if rebuilt.digest != e.digest then err (message "audit digest mismatch") else ok tt
      ]

  unfoldable pub verify_from : ℕ → String → List Event → Result (Unit {0})
  unfolding verify_event
  verify_from i previous [] = ok tt
  verify_from i previous (e ∷ es) =
      let rest = verify_from (i + 1) e.digest es in
      elim (verify_event i previous e) [ err x ↦ err x | ok u ↦ rest ]

  unfoldable pub verify : List Event → Result (Unit {0})
  unfolding verify_from
  verify events = verify_from 0 "" events

  unfoldable pub new_checkpoint : List Event → ℕ → Result Checkpoint
  unfolding verify
  new_checkpoint events now =
      if is_empty events
      then err (message "cannot checkpoint empty audit stream")
      else elim (verify events) [
        | err e ↦ err e
        | ok u ↦ ok (record {
          first_sequence = first_of events;
          last_sequence = last_of events;
          event_count = u64 (length events);
          root_digest = last_digest "" events;
          created_at = now;
        })
      ]
