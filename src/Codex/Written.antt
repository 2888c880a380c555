-- ===== src/Codex/Written.antt =====
-- The changes that each transaction on live controls writes
-- (internal/store/postgres/codex_controls.go).
use mathlib.Core.Path.{subst}
use engineering_platform.Session
use engineering_platform.Codex.Database.{CodexRow, Database, Digesting, RuntimeRow}
use engineering_platform.Codex.{
  ControlBinding, ControlClose, ControlDelivery, ControlInput, ControlKind, ControlRuntime,
  ControlSettlement, ControlTranscript, DeliveryState, RuntimeState, Token, active, binding_beq_iff,
  binding_eq, close_eq, delivery_state_beq_iff, delivery_state_eq, dispatching, kind_eq, queued,
  sealed, token_eq, turn_eq,
}
use engineering_platform.Codex.Transactions.{
  answer_sealed, bind_control, bind_row, binding_of, claim_control, claimed, close_active,
  close_control, dispatch_next, input_delivery, insert_control, is_taken, lock_control_runtime,
  named, noted, observed, of_execution, queue_control, queue_named, queue_new, seal, settle_control,
  too_many,
}
use engineering_platform.Codex.Controls.{
  advance, any_interrupt, any_pending, by_sequence, find_command, first_queued, is_active,
  is_outcome, is_sealed,
}
use engineering_platform.Codex.Checks.{
  bad_authority, validate_binding, validate_delivery, validate_input,
}
use engineering_platform.Codex.Rules.{
  Ensures, Ensures-at, Ensures-bind, Ensures-err, Ensures-if, Ensures-ok, both,
  control_runtime-IsRuntime, is_valid, lock_codex-RowOf, of_execution-some, or_fail-some,
  require-true, scan_control-ok, select-some,
}
use engineering_platform.Codex.Changes.{
  Active, Change, Writes, binds, claims, dispatched, queues, resolved, seals, settles,
}
use engineering_platform.Prelude.{
  ==_iff, ==_refl, Bool, Option, String, ap, arith, false, is_ok, length, nat_eq, none, not, ok,
  refl, some, string_eq, sym, true, ℕ, ◌<◌, ◌==◌, ◌∙◌, ◌≡◌,
}

untrue : (b : Bool) → not b ≡ true → b ≡ false
untrue true e = cc
untrue false e = refl

module _ (h : Digesting) (now : ℕ) (db : Database) where
  lock_control_runtime-Active :
      (b : ControlBinding)
      → Ensures (λ r. is_sealed r.state ≡ false → Active h db b) (lock_control_runtime h b db)
  unfolding lock_control_runtime
  lock_control_runtime-Active b = Ensures-bind λ stored p. Ensures-bind λ r q.
      Ensures-bind λ _ same. Ensures-ok λ up.
        let (copied, valid, opened) = control_runtime-IsRuntime h stored r q in
        let e = (binding_beq_iff r.binding b).0 (require-true _ _ _ same) in
        record {
          row = stored;
          stored = of_execution-some b.token.id db.runtime stored (or_fail-some _ _ stored p);
          same = sym copied ∙ e;
          is_open = opened up;
          valid = subst (λ x. is_ok (validate_binding x) ≡ true) (sym copied ∙ e) valid;
        }

  bind_row-Writes :
      (b : ControlBinding) (o : Option RuntimeRow)
      → of_execution b.token.id db.runtime ≡ o
      → is_ok (validate_binding b) ≡ true
      → (row : CodexRow) → db.execution ≡ some row
      → row.token ≡ b.token
      → Ensures (Writes h now db) (bind_row h b db o)
  bind_row-Writes b none e v row p q = Ensures-ok (binds b row v e p q)
  bind_row-Writes b (some stored) e v row p q =
      Ensures-bind λ _ _. Ensures-bind λ _ _. Ensures-ok tt

  pub bind_control-Writes :
      (subject : String) (b : ControlBinding) (locked : ℕ)
      → Ensures (Writes h now db) (bind_control h subject b locked db)
  unfolding bind_control
  bind_control-Writes subject b locked = Ensures-bind λ _ valid. Ensures-bind λ (row, inbox) l.
      Ensures-bind λ _ _.
        let (stored, same, _) = Ensures-at (lock_codex-RowOf h subject b.token true locked db) l in
        bind_row-Writes b (of_execution b.token.id db.runtime) refl (require-true _ _ _ valid) row
          stored same

  abbrev LockOk : ControlBinding → ControlRuntime → Type 0
  LockOk b r = lock_control_runtime h b db ≡ ok r

  unsealed : (to : RuntimeState) → is_active to ≡ true → is_sealed to ≡ false
  unsealed active e = refl
  unsealed sealed e = cc
  unsealed (RuntimeState.other x) e = refl

  unsealed_row :
      {b : ControlBinding} {r : ControlRuntime}
      → LockOk b r
      → is_sealed r.state ≡ false
      → Active h db b
  unsealed_row {b} e = Ensures-at (lock_control_runtime-Active b) e

  is_active_row :
      {b : ControlBinding} {r : ControlRuntime}
      → LockOk b r
      → is_active r.state ≡ true
      → Active h db b
  is_active_row {r} e up = unsealed_row e (unsealed r.state up)

  queued-valid :
      (run_id : String) (token : Token) (kind : ControlKind) (i : ControlInput) (digest : String)
      → 0 < now
      → is_ok (validate_input i kind) ≡ true
      → is_ok (validate_binding (binding_of token i)) ≡ true
      → run_id ≡ token.run_id
      → h.hash_payload (record { binding = binding_of token i; kind = kind; text = i.text })
        ≡ ok digest
      → is_valid h (input_delivery run_id (binding_of token i) kind i digest now) ≡ true
  unfolding validate_delivery bad_authority
  queued-valid run_id token kind i digest t p q id hash =
      ground (arith, ==_iff run_id token.run_id, ==_refl i.execution_epoch, ==_refl digest)

  advance-rises :
      (epoch sequence : ℕ) (o : Option Session.Session) (s' : Session.Session)
      → advance epoch sequence o ≡ some s'
      → (s : Session.Session) × (o ≡ some s)
        × (s.last_sequence < sequence)
        × (s'.last_sequence ≡ sequence)
  advance-rises epoch sequence none s' e = cc
  advance-rises epoch sequence (some s) s' e = (s, refl, ground (arith, e), ground (arith, e))

  insert_control-Writes :
      (d : ControlDelivery)
      → Active h db d.payload.binding
      → is_valid h d ≡ true
      → d.state ≡ queued
      → d.command.created_at ≡ now
      → d.dispatched_at ≡ none
      → d.resolved_at ≡ none
      → too_many d.payload.kind db.commands ≡ false
      → Ensures (Writes h now db) (insert_control d db)
  insert_control-Writes d on valid q t p r few = Ensures-bind λ _ free. Ensures-bind λ s' e.
      Ensures-ok (
        let (s, here, above, set) =
          advance-rises d.command.execution_epoch d.command.sequence db.session s'
            (or_fail-some _ _ s' e) in
        queues d s s' on valid q t p r here above set (untaken (require-true _ _ _ free))
          (few_enough few) (uninterrupted few))
    where
      untaken : not (is_taken d db) ≡ true → find_command d.command.id db.commands ≡ none
      untaken e = ground (arith, e)

      few_enough : too_many d.payload.kind db.commands ≡ false → length db.commands < 64
      few_enough e = ground (arith, e)

      uninterrupted :
          too_many d.payload.kind db.commands ≡ false → any_interrupt db.commands ≡ false
      uninterrupted e = ground (arith, e)

  queue_new-Writes :
      (run_id : String) (kind : ControlKind) (i : ControlInput) (locked : ℕ)
      → 0 < now
      → is_ok (validate_input i kind) ≡ true
      → Ensures (Writes h now db) (queue_new h run_id kind i locked now db)
  queue_new-Writes run_id kind i locked t v = Ensures-bind λ stored p. Ensures-bind λ row _.
      Ensures-bind λ (row', inbox) l. Ensures-bind λ r k. Ensures-bind λ _ open'.
        Ensures-bind λ _ few. Ensures-bind λ digest hash.
          let (_, _, id') = Ensures-at (lock_codex-RowOf h row.worker row.token true locked db) l in
          let (_, id) = select-some run_id db db.execution stored (or_fail-some _ _ stored p) in
          let (up, _) =
            both (is_active r.state) (inbox.intent.execution_epoch == i.execution_epoch)
              (require-true _ _ _ open') in
          let on = is_active_row k up in
          insert_control-Writes _ on
            (queued-valid run_id row.token kind i digest t v on.valid (id ∙ sym id') hash) refl refl
            refl refl (untrue _ (require-true _ _ _ few))

  queue_named-Writes :
      (o : Option ControlDelivery) (run_id : String) (kind : ControlKind) (i : ControlInput)
      (locked : ℕ)
      → 0 < now
      → is_ok (validate_input i kind) ≡ true
      → Ensures (Writes h now db) (queue_named h run_id kind i locked now db o)
  queue_named-Writes none run_id kind i locked t v = queue_new-Writes run_id kind i locked t v
  queue_named-Writes (some d) run_id kind i locked t v =
      Ensures-bind λ _ _. Ensures-bind λ _ _. Ensures-ok tt

  pub queue_control-Writes :
      (run_id : String) (kind : ControlKind) (i : ControlInput) (locked : ℕ)
      → 0 < now
      → Ensures (Writes h now db) (queue_control h run_id kind i locked now db)
  unfolding queue_control
  queue_control-Writes run_id kind i locked t =
      Ensures-bind
        λ _ v. queue_named-Writes (named i.id db) run_id kind i locked t (require-true _ _ _ v)

  dispatch_next-Writes :
      (b : ControlBinding) (o : Option ControlDelivery)
      → Active h db b
      → first_queued (by_sequence db.commands) ≡ o
      → any_pending db.commands ≡ false
      → Ensures (Writes h now db) (dispatch_next h now db o)
  dispatch_next-Writes b none on e few = Ensures-ok tt
  dispatch_next-Writes b (some stored) on e few = Ensures-bind λ d p. Ensures-bind λ d' q.
      Ensures-ok (
        let (same, _) = scan_control-ok h stored d p in
        let (same', valid) = scan_control-ok h (dispatched now d) d' q in
        subst (λ x. Change h now db (claimed d.command.id x db)) (sym same')
          (claims b d on (e ∙ ap some (sym same)) few valid))

  pub claim_control-Writes :
      (subject : String) (b : ControlBinding) (locked : ℕ)
      → Ensures (Writes h now db) (claim_control h subject b locked now db)
  unfolding claim_control
  claim_control-Writes subject b locked = Ensures-bind λ _ _. Ensures-bind λ r k.
      Ensures-bind λ _ up. Ensures-bind λ _ few.
        dispatch_next-Writes b (first_queued (by_sequence db.commands))
          (is_active_row k (require-true _ _ _ up)) refl (untrue _ (require-true _ _ _ few))

  observed-Writes :
      (b : ControlBinding) (id : String) (outcome : DeliveryState) (d : ControlDelivery)
      → Active h db b
      → find_command id db.commands ≡ some d
      → d.state ≡ dispatching
      → is_outcome outcome d.payload.kind ≡ true
      → Ensures (Writes h now db) (observed h d outcome now db)
  observed-Writes b id outcome d on e q o = Ensures-bind λ d' p. Ensures-ok (
      let (same, valid) = scan_control-ok h (resolved outcome now d) d' p in
      subst (λ x. Change h now db (noted d.command.id x db)) (sym same)
        (settles b id outcome d on e q o valid))

  pub settle_control-Writes :
      (subject : String) (r : ControlSettlement)
      → Ensures (Writes h now db) (settle_control h subject r now db)
  unfolding settle_control
  settle_control-Writes subject r = Ensures-bind λ _ _. Ensures-bind λ runtime k.
      Ensures-bind λ stored p. Ensures-bind λ d q. Ensures-bind λ _ _. Ensures-bind λ _ o.
        let (same, _) = scan_control-ok h stored d q in
        Ensures-if (d.state == r.outcome) (Ensures-ok tt) (
          Ensures-bind λ _ up.
            let (on, going) =
              both (is_active runtime.state) (d.state == dispatching) (require-true _ _ _ up) in
            observed-Writes r.binding r.id r.outcome d (is_active_row k on)
              (or_fail-some _ _ stored p ∙ ap some (sym same))
              ((delivery_state_beq_iff d.state dispatching).0 going) (require-true _ _ _ o))

  seal-Writes :
      (c : ControlClose) (clock : ℕ → ℕ)
      → Active h db c.binding
      → Ensures (Writes h now db) (seal h c clock db)
  seal-Writes c clock on =
      Ensures-bind λ _ _. Ensures-bind λ digest e. Ensures-ok (seals c clock digest on e)

  answer_sealed-Writes :
      (c : ControlClose) (o : Option ControlTranscript)
      → Ensures (Writes h now db) (answer_sealed c o)
  answer_sealed-Writes c none = Ensures-err
  answer_sealed-Writes c (some t) = Ensures-bind λ _ _. Ensures-ok tt

  close_active-Writes :
      (c : ControlClose) (clock : ℕ → ℕ) (r : ControlRuntime) (to : RuntimeState)
      → LockOk c.binding r
      → r.state ≡ to
      → Ensures (Writes h now db) (close_active h c clock r db to)
  close_active-Writes c clock r sealed k e = answer_sealed-Writes c r.transcript
  close_active-Writes c clock r active k e = seal-Writes c clock (unsealed_row k (ap is_sealed e))
  close_active-Writes c clock r (RuntimeState.other x) k e =
      seal-Writes c clock (unsealed_row k (ap is_sealed e))

  pub close_control-Writes :
      (subject : String) (c : ControlClose) (clock : ℕ → ℕ)
      → Ensures (Writes h now db) (close_control h subject c clock db)
  unfolding close_control
  close_control-Writes subject c clock =
      Ensures-bind
        λ _ _. Ensures-bind λ _ _. Ensures-bind λ r k. close_active-Writes c clock r r.state k refl
