-- ===== src/Codex/Checks.antt =====
-- internal/codexexec: what `control.go` and `continuation.go` accept, and what a sealed transcript of
-- the controls allows. Texts are valid UTF-8 here. The digests of a payload and of a transcript are
-- parameters.
use engineering_platform.Prelude.{
  Bool, Option, Result, String, [], all_codes, bounded, codes, contains_any, err, false, fits,
  if◌then◌else◌, is_blank, is_ok, leb, length, ltb, message, nat_eq, none, not, ok, some, string_eq,
  true, ℕ, ◌!=◌, ◌&&◌, ◌==◌, ◌^◌, ◌||◌, ◌∷◌,
}
use engineering_platform.Canonical.{is_lower_hex, valid_digest}
use engineering_platform.Codex.{
  ControlBinding, ControlDelivery, ControlInput, ControlKind, ControlPayload, DeliveryState, Token,
  binding_eq, close_eq, delivery_state_eq, dispatching, interrupt, interrupt_acknowledged, kind_eq,
  not_applied, queued, steer, steer_accepted, token_eq, turn_eq, turn_interrupted,
}
use engineering_platform.Workerqueue.{valid_profile}

unfoldable pub bounded_id : String → Bool
unfolding bounded
bounded_id s = bounded s 256 && all_codes (λ c. leb 0x20 c && c != 0x7f) (codes s)

-- ^[0-9a-f]{64}$, and `RunID` is bounded.
unfoldable pub valid_token : Token → Bool
unfolding valid_profile valid_digest
valid_token t =
    length (codes t.id) == 64
    && all_codes is_lower_hex (codes t.id)
    && t.run_id != ""
    && fits t.run_id 256
    && valid_profile t.worker_profile
    && valid_digest t.profile_digest

-- n == 0 || n > 1<<62
abbrev out_of_range : ℕ → Bool
out_of_range n = n == 0 || ltb (2 ^ 62) n

bad_identity : ControlInput → Bool
bad_identity i =
    not (bounded_id i.id)
    || not (bounded_id i.actor)
    || not (bounded_id i.thread_id)
    || not (bounded_id i.turn_id)
    || out_of_range i.execution_epoch
    || out_of_range i.sequence

abbrev check_text : ControlKind → String → Result (Unit {0})
check_text steer text =
    if is_blank text || not (fits text 8192) || contains_any text (0 ∷ [])
    then err (message "bounded nonempty UTF-8 steering text required")
    else ok tt
check_text interrupt text =
    if text != "" then err (message "interrupt must not carry model input") else ok tt
check_text (ControlKind.other k) text = err (message "unsupported live control")

-- `ControlInput.Validate`
unfoldable pub validate_input : ControlInput → ControlKind → Result (Unit {0})
unfolding bad_identity bounded_id is_blank contains_any
validate_input i kind =
    if bad_identity i then err (message "invalid control identity") else check_text kind i.text

-- `ControlBinding.Validate`
unfoldable pub validate_binding : ControlBinding → Result (Unit {0})
unfolding valid_token bounded_id
validate_binding b =
    if not (valid_token b.token)
      || out_of_range b.execution_epoch
      || not (bounded_id b.thread_id)
      || not (bounded_id b.turn_id)
    then err (message "invalid live Runtime binding")
    else ok tt

-- at != nil && (at.IsZero() || at.Before(start))
abbrev pub bad_time : Option ℕ → ℕ → Bool
bad_time none start = false
bad_time (some at) start = at == 0 || ltb at start

-- The start of a resolution: the dispatch, if there was one.
abbrev pub start_of : Option ℕ → ℕ → ℕ
start_of none created = created
start_of (some at) created = at

abbrev drifted : String → Result String → Bool
drifted stored (ok digest) = stored != digest
drifted stored (err e) = true

-- The switch over `d.State`, by what is set and the kind.
abbrev pub check_state : DeliveryState → Option ℕ → Option ℕ → ControlKind → Result (Unit {0})
check_state queued none none kind = ok tt
check_state queued _ _ kind = err (message "queued command carries outcome")
check_state dispatching (some at) none kind = ok tt
check_state dispatching _ _ kind = err (message "invalid dispatch state")
check_state steer_accepted (some at) (some until) kind =
    if kind != steer then err (message "outcome kind mismatch") else ok tt
check_state interrupt_acknowledged (some at) (some until) kind =
    if kind != interrupt then err (message "outcome kind mismatch") else ok tt
check_state turn_interrupted (some at) (some until) kind =
    if kind != interrupt then err (message "outcome kind mismatch") else ok tt
check_state DeliveryState.unknown (some at) (some until) kind = ok tt
check_state not_applied at (some until) kind = ok tt
check_state not_applied at none kind = err (message "missing not-applied observation")
check_state (DeliveryState.other s) at until kind = err (message "invalid delivery outcome")
check_state _ at until kind = err (message "missing delivery observations")

module _ (hash_payload : ControlPayload → Result String) where
  -- What a change of the state and of the times does not touch.
  unfoldable pub bad_authority : ControlDelivery → Bool
  bad_authority d =
      let c = d.command in
      let b = d.payload.binding in
      let input : ControlInput = record {
        id = c.id;
        execution_epoch = c.execution_epoch;
        sequence = c.sequence;
        actor = c.actor;
        thread_id = b.thread_id;
        turn_id = b.turn_id;
        text = d.payload.text;
      } in
      not (is_ok (validate_binding b))
      || not (is_ok (validate_input input d.payload.kind))
      || c.run_id != b.token.run_id
      || c.execution_epoch != b.execution_epoch
      || drifted c.content_digest (hash_payload d.payload)
      || c.created_at == 0

  -- `ControlDelivery.Validate`
  unfoldable pub validate_delivery : ControlDelivery → Result (Unit {0})
  validate_delivery d =
      if bad_authority d
      then err (message "control payload/authority mismatch")
      else if bad_time d.dispatched_at d.command.created_at
      then err (message "invalid dispatch observation")
      else if bad_time d.resolved_at d.command.created_at
          || bad_time d.resolved_at (start_of d.dispatched_at d.command.created_at)
      then err (message "invalid resolution observation")
      else check_state d.state d.dispatched_at d.resolved_at d.payload.kind
