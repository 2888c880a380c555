-- ===== src/Codex/Controls.antt =====
-- Live controls of a Codex execution in the database (internal/store/postgres/codex_controls.go): a
-- binding to one turn, the queue of controls, one dispatch at a time, what is observed of it, and the
-- transcript in which everything is sealed. A statement that fails is a rollback too, and is not
-- modelled; nor are time limits. A clock reading is an argument.
use engineering_platform.Run
use engineering_platform.Session
use engineering_platform.Codex.Database.{is_runtime, ◌>>◌}
use engineering_platform.Codex.{
  ControlDelivery, ControlInput, ControlKind, DeliveryState, RuntimeState, TurnStatus, active,
  binding_eq, close_eq, delivery_state_eq, dispatching, interrupt, interrupt_acknowledged,
  interrupted, kind_eq, not_applied, queued, sealed, steer, steer_accepted, token_eq, turn_eq,
  turn_interrupted,
}
use engineering_platform.Prelude.{
  Bool, Error, List, Option, Result, String, [], conflict, false, if◌then◌else◌, leb, ltb, nat_eq,
  none, not, ok, sentinel, some, string_eq, true, ℕ, ◌&&◌, ◌+◌, ◌==◌, ◌||◌, ◌∷◌,
}

abbrev pub conflicted : Error
conflicted = sentinel conflict

abbrev pub is_active : RuntimeState → Bool
is_active active = true
is_active _ = false

abbrev pub is_sealed : RuntimeState → Bool
is_sealed sealed = true
is_sealed _ = false

-- `matchesControl`
unfoldable pub matches_control : ControlDelivery → String → ControlKind → ControlInput → Bool
matches_control d run_id kind i =
    d.command.run_id == run_id
    && d.command.id == i.id
    && d.command.execution_epoch == i.execution_epoch
    && d.command.sequence == i.sequence
    && d.command.actor == i.actor
    && d.payload.kind == kind
    && d.payload.text == i.text
    && d.payload.binding.thread_id == i.thread_id
    && d.payload.binding.turn_id == i.turn_id

-- WHERE steering_command_id=$1, which is the primary key.
unfoldable pub find_command : String → List ControlDelivery → Option ControlDelivery
find_command id [] = none
find_command id (d ∷ ds) = if d.command.id == id then some d else find_command id ds

unfoldable pub set_command : String → ControlDelivery → List ControlDelivery → List ControlDelivery
set_command id d' [] = []
set_command id d' (d ∷ ds) = if d.command.id == id then d' ∷ ds else d ∷ set_command id d' ds

-- ORDER BY sequence
unfoldable pub enter : ControlDelivery → List ControlDelivery → List ControlDelivery
enter d [] = d ∷ []
enter d (x ∷ xs) = if leb d.command.sequence x.command.sequence then d ∷ x ∷ xs else x ∷ enter d xs

unfoldable pub by_sequence : List ControlDelivery → List ControlDelivery
unfolding enter
by_sequence [] = []
by_sequence (d ∷ ds) = enter d (by_sequence ds)

-- WHERE delivery_state='QUEUED' ... LIMIT 1
unfoldable pub first_queued : List ControlDelivery → Option ControlDelivery
first_queued [] = none
first_queued (d ∷ ds) = if d.state == queued then some d else first_queued ds

-- delivery_state IN ('DISPATCHING','INTERRUPT_ACKNOWLEDGED','UNKNOWN')
abbrev pub is_pending : DeliveryState → Bool
is_pending dispatching = true
is_pending interrupt_acknowledged = true
is_pending DeliveryState.unknown = true
is_pending _ = false

abbrev pub any_pending : List ControlDelivery → Bool
any_pending [] = false
any_pending (d ∷ ds) = is_pending d.state || any_pending ds

-- bool_or(control_payload->>'kind'='INTERRUPT')
abbrev pub any_interrupt : List ControlDelivery → Bool
any_interrupt [] = false
any_interrupt (d ∷ ds) = d.payload.kind == interrupt || any_interrupt ds

-- UNIQUE (run_id, execution_epoch, sequence)
abbrev pub numbered : ℕ → ℕ → List (ℕ × ℕ) → Bool
numbered epoch sequence [] = false
numbered epoch sequence ((e, n) ∷ ns) = (e == epoch && n == sequence) || numbered epoch sequence ns

abbrev pub repeated : ℕ → ℕ → List ControlDelivery → Bool
repeated epoch sequence [] = false
repeated epoch sequence (d ∷ ds) =
    (d.command.execution_epoch == epoch && d.command.sequence == sequence)
    || repeated epoch sequence ds

-- The first update of `CloseCodexControl`.
abbrev pub closed_state : TurnStatus → DeliveryState → DeliveryState
closed_state turn queued = not_applied
closed_state turn dispatching = DeliveryState.unknown
closed_state turn interrupt_acknowledged =
    if turn == interrupted then turn_interrupted else interrupt_acknowledged
closed_state turn s = s

abbrev pub is_unsettled : DeliveryState → Bool
is_unsettled queued = true
is_unsettled dispatching = true
is_unsettled interrupt_acknowledged = true
is_unsettled _ = false

unfoldable pub close_command : TurnStatus → ℕ → ControlDelivery → ControlDelivery
close_command turn now d =
    if is_unsettled d.state
    then record d { state = closed_state turn d.state; resolved_at = some now }
    else d

-- Each row has a reading of the clock.
unfoldable pub close_commands : TurnStatus → (ℕ → ℕ) → List ControlDelivery → List ControlDelivery
unfolding close_command
close_commands turn clock [] = []
close_commands turn clock (d ∷ ds) =
    close_command turn (clock 0) d ∷ close_commands turn (λ n. clock (n + 1)) ds

abbrev pub all_ok : {A : Type 0} → (A → Result (Unit {0})) → List A → Result (Unit {0})
all_ok f [] = ok tt
all_ok f (x ∷ xs) = f x >> all_ok f xs

-- Outcome and kind that `SettleCodexControl` takes.
abbrev pub is_outcome : DeliveryState → ControlKind → Bool
is_outcome not_applied kind = true
is_outcome DeliveryState.unknown kind = true
is_outcome steer_accepted kind = kind == steer
is_outcome interrupt_acknowledged kind = kind == interrupt
is_outcome _ kind = false

-- UPDATE sessions ... WHERE ... last_steering_sequence<$1: the row, if one fits.
abbrev pub advance : ℕ → ℕ → Option Session.Session → Option Session.Session
advance epoch sequence none = none
advance epoch sequence (some s) =
    if s.execution_epoch == epoch
      && is_runtime s.owner
      && not s.paused
      && ltb s.last_sequence sequence
    then some (record s { last_sequence = sequence })
    else none

-- UPDATE runs SET version=version+1
abbrev pub count_version : Option Run.Run → Option Run.Run
count_version none = none
count_version (some r) = some (record r { version = r.version + 1 })
