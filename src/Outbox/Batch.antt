-- ===== src/Outbox/Batch.antt =====
-- internal/outbox/dispatcher.go: `DispatchBatch`, over any repository. Durations and the limit are
-- not negative, and counts do not overflow.
pub mod Totals
pub mod Settled
pub mod Accounts
use engineering_platform.Action
use engineering_platform.Prelude.{
  Bool, Context, Error, Exec, List, Option, Result, Sentinel, String, [], ctx_err, err, errors_is,
  false, if◌then◌else◌, lease_lost, leb, length, lift, ltb, message, modify, nat_eq, none, not, ok,
  pure, raise, recovery_blocked, risk_class, sentinel, some, string_eq, true, ℕ, ◌*◌, ◌+◌, ◌/◌,
  ◌==◌, ◌>>=◌, ◌^◌, ◌||◌, ◌∷◌,
}
use engineering_platform.Outbox.{
  Message, Resolution, State, classify, day, dead_letter, dispatched, is_outcome_unknown, leased,
  pending, resolve, retry_delay, valid_risk,
}

pub record Lease : Type 0 where
  pub id : ℕ
  pub owner : String
  pub attempt : ℕ

abbrev pub lease_of : Message → Lease
lease_of m = record { id = m.id; owner = m.lease_owner; attempt = m.attempt_count }

-- The interface `Repository`, over a state of its own. `dispatch` is told the timeout of the context
-- that the source makes for it.
pub record Repository (S : Type 0) : Type 0 where
  pub claim : String → ℕ → ℕ → Exec S (List Message)
  pub dispatch : ℕ → Lease → Action.RiskClass → (Message → Resolution) → Exec S State
  pub mark_dead_letter : Lease → String → Exec S Unit

-- A handler that is `nil` is `none`.
pub record Registration : Type 0 where
  pub topic : String
  pub risk_class : Action.RiskClass
  pub handler : Option (Message → Result (Unit {0}))

pub record Dispatcher (S : Type 0) : Type 0 where
  pub repository : Repository S
  pub handlers : List Registration
  pub lease_duration : ℕ
  pub handler_timeout : ℕ
  pub retry_delay : ℕ
  pub max_retry_delay : ℕ
  pub max_attempts : ℕ

pub record Summary : Type 0 where
  pub claimed : ℕ
  pub dispatched : ℕ
  pub retried : ℕ
  pub dead_lettered : ℕ
  pub deferred : ℕ

abbrev pub no_summary : Summary
no_summary = record { claimed = 0; dispatched = 0; retried = 0; dead_lettered = 0; deferred = 0 }

-- The summary, which is returned beside an error too, and the repository.
pub record Progress (S : Type 0) : Type 0 where
  pub summary : Summary
  pub ledger : S

abbrev or_default : ℕ → ℕ → ℕ
or_default default value = if value == 0 then default else value

-- The settings of a dispatcher with the defaults filled in.
pub record Settings : Type 0 where
  pub lease : ℕ
  pub timeout : ℕ
  pub delay : ℕ
  pub max_delay : ℕ
  pub max_attempts : ℕ

abbrev second : ℕ
second = 10 ^ 9

abbrev pub settings_of : {S : Type 0} → Dispatcher S → Settings
settings_of d =
    let lease = or_default (30 * second) d.lease_duration in
    record {
      lease = lease;
      timeout = or_default (lease / 2) d.handler_timeout;
      delay = or_default (5 * second) d.retry_delay;
      max_delay = or_default (60 * second) d.max_retry_delay;
      max_attempts = or_default 5 d.max_attempts;
    }

abbrev bad_settings : Settings → Bool
bad_settings s =
    ltb s.lease (10 ^ 6)
    || ltb day s.lease
    || s.timeout == 0
    || leb s.lease s.timeout
    || s.delay == 0
    || ltb s.max_delay s.delay
    || ltb day s.max_delay

abbrev unclassified : Result Action.RiskClass → Bool
unclassified (ok r) = false
unclassified (err e) = true

abbrev missing : Option (Message → Result (Unit {0})) → Bool
missing none = true
missing (some h) = false

-- The loop over the handlers.
check_handlers : List Registration → Result (Unit {0})
unfolding classify valid_risk
check_handlers [] = ok tt
check_handlers (entry ∷ entries) =
    let rest = check_handlers entries in
    if entry.topic == "" || missing entry.handler
    then err (message "handler and topic are required")
    else if unclassified (classify entry.topic entry.risk_class)
        || not (valid_risk entry.risk_class)
    then err (sentinel risk_class)
    else rest

abbrev pub find_handler : List Registration → String → Option Registration
find_handler [] topic = none
find_handler (entry ∷ entries) topic =
    if entry.topic == topic then some entry else find_handler entries topic

-- The handlers have been checked, so none is missing.
abbrev handle_by : Option (Message → Result (Unit {0})) → Message → Result (Unit {0})
handle_by none m = err (message "no handler")
handle_by (some h) m = h m

abbrev is_lease_lost : Sentinel → Bool
is_lease_lost lease_lost = true
is_lease_lost _ = false

-- The denials of authority, which leave the message for a fresh claim.
abbrev is_denial : Sentinel → Bool
is_denial lease_lost = true
is_denial recovery_blocked = true
is_denial risk_class = true
is_denial _ = false

module _ {S : Type 0} where
  abbrev on_ledger :
      {A : Type 0} → Exec S A → (Result A → Exec (Progress S) Unit) → Exec (Progress S) Unit
  on_ledger f k p = let (r, s) = f p.ledger in k r (record p { ledger = s })

  abbrev count : (Summary → Summary) → Exec (Progress S) Unit
  count f = modify λ p. record p { summary = f p.summary }

  abbrev one_dispatched : Exec (Progress S) Unit
  one_dispatched = count λ s. record s { dispatched = s.dispatched + 1 }

  abbrev one_retried : Exec (Progress S) Unit
  one_retried = count λ s. record s { retried = s.retried + 1 }

  abbrev one_dead_lettered : Exec (Progress S) Unit
  one_dead_lettered = count λ s. record s { dead_lettered = s.dead_lettered + 1 }

  abbrev one_deferred : Exec (Progress S) Unit
  one_deferred = count λ s. record s { deferred = s.deferred + 1 }

  abbrev after_mark : Result (Unit {0}) → Exec (Progress S) Unit
  after_mark (ok u) = one_dead_lettered
  after_mark (err e) = if errors_is is_lease_lost e then one_deferred else raise e

  abbrev after_dispatch : Result State → Exec (Progress S) Unit
  after_dispatch (err e) =
      if is_outcome_unknown e
      then raise e
      else if errors_is is_denial e
      then one_deferred
      else raise e
  after_dispatch (ok dispatched) = one_dispatched
  after_dispatch (ok pending) = one_retried
  after_dispatch (ok dead_letter) = one_dead_lettered
  after_dispatch (ok leased) = raise (message "repository returned invalid settled state")

  module _ (text : Error → String) (d : Dispatcher S) (s : Settings) where
    abbrev dispatch_to : Message → Option Registration → Exec (Progress S) Unit
    unfolding resolve
    dispatch_to m none =
        on_ledger (d.repository.mark_dead_letter (lease_of m) "outbox topic has no handler")
          after_mark
    dispatch_to m (some entry) =
        on_ledger
          (d.repository.dispatch s.timeout (lease_of m) entry.risk_class
            (resolve text s.delay s.max_delay s.max_attempts (handle_by entry.handler) m.topic))
          after_dispatch

    -- The round of one message.
    unfoldable pub dispatch_message : Message → Exec (Progress S) Unit
    unfolding resolve
    dispatch_message m = dispatch_to m (find_handler d.handlers m.topic)

    -- The loop, with the number of the next look at the context.
    unfoldable pub dispatch_messages : Context → ℕ → List Message → Exec (Progress S) Unit
    dispatch_messages ctx n [] = pure tt
    dispatch_messages ctx n (m ∷ ms) =
        ctx_err ctx n >>= λ _. dispatch_message m >>= λ _. dispatch_messages ctx (n + 1) ms

    abbrev dispatch_claimed : Context → Result (List Message) → Exec (Progress S) Unit
    unfolding dispatch_messages
    dispatch_claimed ctx (err e) = raise e
    dispatch_claimed ctx (ok messages) =
        count (λ s. record no_summary { claimed = length messages }) >>= λ _.
        dispatch_messages ctx 1 messages

  -- `text` is `Error()`.
  unfoldable pub dispatch_batch :
      (Error → String) → Dispatcher S → Context → String → ℕ → Exec (Progress S) Unit
  unfolding dispatch_messages check_handlers
  dispatch_batch text d ctx worker_id limit =
      if worker_id == "" || limit == 0 || ltb 1000 limit
      then raise (message "worker and claim limit in [1,1000] are required")
      else if bad_settings (settings_of d)
      then raise (message "invalid outbox lease, timeout or retry bounds")
      else lift (check_handlers d.handlers) >>= λ _. ctx_err ctx 0 >>= λ _.
          on_ledger (d.repository.claim worker_id limit (settings_of d).lease)
            (dispatch_claimed text d (settings_of d) ctx)
