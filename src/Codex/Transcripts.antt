-- ===== src/Codex/Transcripts.antt =====
-- internal/codexexec: the transcript in which a turn's controls are sealed (control.go), and what it
-- allows (`AllowsDelivery`, `Continuable` of continuation.go). The digests are parameters.
use engineering_platform.ProcessScope
use engineering_platform.Prelude.{
  Bool, List, Result, String, [], contains, err, false, if◌then◌else◌, is_ok, leb, length, ltb,
  message, nat_eq, none, not, ok, some, string_eq, true, ℕ, ◌!=◌, ◌&&◌, ◌==◌, ◌||◌, ◌∷◌,
}
use engineering_platform.Codex.{
  ControlBinding, ControlClose, ControlDelivery, ControlPayload, ControlTranscript, DeliveryState,
  TurnStatus, binding_eq, close_eq, completed, delivery_state_eq, dispatching, interrupted, kind_eq,
  not_applied, queued, steer, steer_accepted, token_eq, turn_eq, turn_interrupted,
}
use engineering_platform.Codex.Checks.{validate_binding, validate_delivery}
use engineering_platform.ProcessScope.{no_proof, proof_eq}

abbrev pub max_controls : ℕ
max_controls = 64

abbrev pub known_turn : TurnStatus → Bool
known_turn (TurnStatus.other s) = false
known_turn _ = true

-- `ControlClose.Validate`
unfoldable pub validate_close : ControlClose → Result (Unit {0})
unfolding validate_binding
validate_close c =
    if not (is_ok (validate_binding c.binding))
      || (c.process_scope != no_proof && not (is_ok (ProcessScope.validate c.process_scope)))
    then err (message "invalid closure binding")
    else if known_turn c.turn_status
    then ok tt
    else err (message "invalid terminal turn observation")

-- d.State == ControlQueued || d.State == ControlDispatching
abbrev pub is_open : DeliveryState → Bool
is_open queued = true
is_open dispatching = true
is_open _ = false

abbrev pub all_accepted : List ControlDelivery → Bool
all_accepted [] = true
all_accepted (d ∷ ds) = d.payload.kind == steer && d.state == steer_accepted && all_accepted ds

-- The loop of `Continuable`, by what was found so far.
abbrev pub was_interrupted : Bool → List ControlDelivery → Bool
was_interrupted found [] = found
was_interrupted found (d ∷ ds) = elim d.state [
  | steer_accepted ↦ was_interrupted found ds
  | turn_interrupted ↦ was_interrupted true ds
  | not_applied ↦ elim d.dispatched_at [ none ↦ was_interrupted found ds | some at ↦ false ]
  | _ ↦ false
]

module _ (hash_payload : ControlPayload → Result String)
    (hash_transcript : ControlTranscript → Result String) where
  unfoldable pub bad_delivery : ControlBinding → ℕ → List String → ControlDelivery → Bool
  unfolding validate_delivery
  bad_delivery binding last seen d =
      not (is_ok (validate_delivery hash_payload d))
      || d.payload.binding != binding
      || leb d.command.sequence last
      || contains seen d.command.id
      || is_open d.state

  unfoldable pub bad_deliveries : ControlBinding → ℕ → List String → List ControlDelivery → Bool
  unfolding bad_delivery
  bad_deliveries binding last seen [] = false
  bad_deliveries binding last seen (d ∷ ds) =
      bad_delivery binding last seen d
      || bad_deliveries binding d.command.sequence (d.command.id ∷ seen) ds

  -- `ControlTranscript.Digest`
  unfoldable pub transcript_digest : ControlTranscript → Result String
  unfolding bad_deliveries validate_close
  transcript_digest t =
      if t.version != 2
        || not (is_ok (validate_close t.close))
        || ltb max_controls (length t.deliveries)
      then err (message "invalid control transcript")
      else if bad_deliveries t.close.binding 0 [] t.deliveries
      then err (message "control transcript drift")
      else hash_transcript t

  unfoldable pub allows_delivery : ControlTranscript → Bool
  unfolding transcript_digest ProcessScope.quiescent
  allows_delivery t =
      is_ok (transcript_digest t)
      && t.close.turn_status == completed
      && ProcessScope.quiescent t.close.process_scope
      && all_accepted t.deliveries

  unfoldable pub continuable : ControlTranscript → Bool
  unfolding transcript_digest ProcessScope.quiescent
  continuable t =
      is_ok (transcript_digest t)
      && t.close.turn_status == interrupted
      && ProcessScope.quiescent t.close.process_scope
      && was_interrupted false t.deliveries
