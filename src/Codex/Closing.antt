-- ===== src/Codex/Closing.antt =====
-- The sealing of a turn's controls (`CloseCodexControl` of
-- internal/store/postgres/codex_controls.go).
use mathlib.Core.Path.{subst}
use engineering_platform.Codex.Database.{
  CodexRow, Database, Digesting, InboxRecord, Outcome, RuntimeRow, lock_codex, or_fail, require,
  written, ◌>>=◌,
}
use engineering_platform.Codex.{
  ControlBinding, ControlClose, ControlDelivery, ControlKind, ControlRuntime, ControlTranscript,
  DeliveryState, TurnStatus, active, binding_beq_iff, binding_eq, close_eq, delivery_state_eq,
  dispatching, interrupt_acknowledged, kind_eq, queued, token_eq, turn_eq,
}
use engineering_platform.Codex.Transactions.{
  close_control, control_runtime, lock_control_runtime, scan_control, seal, sealed_by,
  transcript_of,
}
use engineering_platform.Codex.Controls.{
  all_ok, by_sequence, close_command, close_commands, closed_state, is_active, is_unsettled,
}
use engineering_platform.Codex.Checks.{
  bad_authority, check_state, validate_binding, validate_delivery,
}
use engineering_platform.Codex.Transcripts.{
  bad_deliveries, is_open, transcript_digest, validate_close,
}
use engineering_platform.Codex.Rules.{is_valid}
use engineering_platform.Codex.Changes.{Active, resolved}
use engineering_platform.Codex.Orders.{
  Rising, by_sequence-Rising, ids, length-orders_of, order_of-close_command, orders_of,
}
use engineering_platform.Codex.History.{History}
use engineering_platform.Codex.Ordered.{IsOrdered, sealed-IsOrdered}
use engineering_platform.Codex.Timely.{History-IsOpen, IsTimely, AtMost, later-IsTimely}
use engineering_platform.Prelude.{
  ==_refl, All, Bool-cases, Distinct, Fresh, Fresh-empty, Fresh-see, List, Option, Option-cases,
  Result, String, [], ap, arith, false, inl, inr, is_ok, length, nat_eq, none, ok, refl, some,
  string_eq, sym, true, ℕ, ◌+◌, ◌<◌, ◌∙◌, ◌∷◌, ◌≡◌, ◌≤◌,
}

closed_check :
    (turn : TurnStatus) (s : DeliveryState) (o p : Option ℕ) (now : ℕ) (kind : ControlKind)
    → is_ok (check_state s o p kind) ≡ true
    → is_unsettled s ≡ true
    → (is_ok (check_state (closed_state turn s) o (some now) kind) ≡ true)
      × (is_open (closed_state turn s) ≡ false)
closed_check turn queued none none now kind c e = (refl, refl)
closed_check turn queued none (some b) now kind c e = cc
closed_check turn queued (some a) p now kind c e = cc
closed_check turn dispatching (some a) none now kind c e = (refl, refl)
closed_check turn dispatching (some a) (some b) now kind c e = cc
closed_check turn dispatching none p now kind c e = cc
closed_check turn interrupt_acknowledged (some a) (some b) now kind c e = ground (arith, c)
closed_check turn interrupt_acknowledged (some a) none now kind c e = cc
closed_check turn interrupt_acknowledged none p now kind c e = cc
closed_check turn _ o p now kind c e = cc

settled_done : (s : DeliveryState) → is_unsettled s ≡ false → is_open s ≡ false
settled_done queued e = cc
settled_done _ e = ground (arith, e)

module _ (h : Digesting) where
  -- A row that a transcript takes.
  abbrev Sealable : ControlBinding → ControlDelivery → Type 0
  Sealable b d = (is_valid h d ≡ true) × (d.payload.binding ≡ b) × (is_open d.state ≡ false)

  same_authority :
      (s : DeliveryState) (now : ℕ) (d : ControlDelivery)
      → bad_authority h.hash_payload (resolved s now d) ≡ bad_authority h.hash_payload d
  unfolding bad_authority
  same_authority s now d = refl

  resolved_valid :
      (s : DeliveryState) (now : ℕ) (d : ControlDelivery)
      → 0 < now
      → IsTimely h now d
      → is_ok (check_state s d.dispatched_at (some now) d.payload.kind) ≡ true
      → is_valid h (resolved s now d) ≡ true
  unfolding validate_delivery
  resolved_valid s now d pos t c = elim (Option-cases d.dispatched_at) [
    | inl never ↦ ground (arith, same_authority s now d, t.valid, t.created, c, never)
    | inr (at, e) ↦ ground (
      arith,
      same_authority s now d,
      t.valid,
      t.created,
      c,
      e,
      subst (λ o. AtMost o now) e t.dispatched_before,
    )
  ]

  state_checked :
      (d : ControlDelivery)
      → is_valid h d ≡ true
      → is_ok (check_state d.state d.dispatched_at d.resolved_at d.payload.kind) ≡ true
  unfolding validate_delivery
  state_checked d v = ground (arith, v)

  closed_valid :
      (turn : TurnStatus) (now : ℕ) (d : ControlDelivery)
      → 0 < now
      → IsTimely h now d
      → (is_valid h (close_command turn now d) ≡ true)
        × (is_open (close_command turn now d).state ≡ false)
  unfolding close_command
  closed_valid turn now d pos t = elim (Bool-cases (is_unsettled d.state)) [
    | inl e ↦
        let (c, done) =
          closed_check turn d.state d.dispatched_at d.resolved_at now d.payload.kind
            (state_checked d t.valid) e in
        rw e (resolved_valid (closed_state turn d.state) now d pos t c, done)
    | inr e ↦ rw e (t.valid, settled_done d.state e)
  ]

  closed-Sealable :
      (turn : TurnStatus) (b : ControlBinding) (past : ℕ) (clock : ℕ → ℕ)
      → ((n : ℕ) → past ≤ clock n)
      → ((n : ℕ) → 0 < clock n)
      → (ds : List ControlDelivery) → All (IsTimely h past) ds
      → All (λ o. o.payload.binding ≡ b) (orders_of ds)
      → All (Sealable b) (close_commands turn clock ds)
  unfolding close_commands
  closed-Sealable turn b past clock late pos [] t m = tt
  closed-Sealable turn b past clock late pos (d ∷ ds) t m =
      let one = later-IsTimely h past (clock 0) (d ∷ []) (late 0) (t.0, tt) in
      let (valid, done) = closed_valid turn (clock 0) d (pos 0) one.0 in
      (
        (valid, ap (λ o. o.payload.binding) (order_of-close_command turn (clock 0) d) ∙ m.0, done),
        closed-Sealable turn b past (λ n. clock (n + 1)) (λ n. late (n + 1)) (λ n. pos (n + 1)) ds
            t.1 m.1,
      )

  All-scanned :
      (b : ControlBinding) (ds : List ControlDelivery)
      → All (Sealable b) ds
      → all_ok (λ d. scan_control h d >>= λ _. ok tt) ds ≡ ok tt
  unfolding ◌>>=◌ scan_control
  All-scanned b [] a = refl
  All-scanned b (d ∷ ds) a = rw a.0.0 (All-scanned b ds a.1)

  sound_deliveries :
      (b : ControlBinding) (last : ℕ) (seen : List String) (ds : List ControlDelivery)
      → All (Sealable b) ds
      → Rising last (orders_of ds)
      → Distinct (ids (orders_of ds))
      → Fresh seen (ids (orders_of ds))
      → bad_deliveries h.hash_payload h.hash_transcript b last seen ds ≡ false
  unfolding bad_deliveries
  sound_deliveries b last seen [] a r n f = refl
  sound_deliveries b last seen (d ∷ ds) a r n f = ground (
    arith,
    a.0,
    r.0,
    f.0,
    binding_beq_iff d.payload.binding b,
    sound_deliveries b d.command.sequence (d.command.id ∷ seen) ds a.1 r.1 n.1
        ((Fresh-see d.command.id seen (ids (orders_of ds))).1 (n.0, f.1)),
  )

  transcript_sound :
      (c : ControlClose) (clock : ℕ → ℕ) (db : Database)
      → is_ok (validate_close c) ≡ true
      → IsOrdered (sealed_by c clock "" db)
      → All (Sealable c.binding) (close_commands c.turn_status clock db.commands)
      → transcript_digest h.hash_payload h.hash_transcript (transcript_of c clock db)
        ≡ h.hash_transcript (transcript_of c clock db)
  unfolding transcript_digest
  transcript_sound c clock db v o a =
      let ds = close_commands c.turn_status clock db.commands in
      let sorted = by_sequence-Rising 0 ds o.rising in
      let none_bad =
        subst (λ xs. bad_deliveries h.hash_payload h.hash_transcript c.binding 0 [] xs ≡ false)
          (sym sorted) (sound_deliveries c.binding 0 [] ds a o.rising o.distinct (Fresh-empty _)) in
      let small : length (by_sequence ds) ≤ 64 =
        subst (λ xs. length xs ≤ 64) (sym sorted) (omega (arith, length-orders_of ds, o.few)) in
      rw (v, none_bad) (ground (arith, small))

  active_lock :
      (b : ControlBinding) (r : RuntimeRow) (db : Database)
      → db.runtime ≡ some r
      → r.binding ≡ b
      → is_ok (validate_binding r.binding) ≡ true
      → r.state ≡ active
      → r.transcript ≡ none
      → r.digest ≡ none
      → (runtime : ControlRuntime) × (lock_control_runtime h b db ≡ ok runtime)
        × (runtime.state ≡ active)
  unfolding lock_control_runtime control_runtime ◌>>=◌ require or_fail
  active_lock b r db e same v s t d = (
    record { binding = r.binding; state = active; transcript = none; digest = "" },
    rw e (ground (arith, same, v, s, t, d, ==_refl b.token.id, ==_refl b)),
    refl,
  )

  seal_done :
      (c : ControlClose) (clock : ℕ → ℕ) (db : Database) (digest : String)
      → all_ok (λ d. scan_control h d >>= λ _. ok tt) (transcript_of c clock db).deliveries ≡ ok tt
      → transcript_digest h.hash_payload h.hash_transcript (transcript_of c clock db) ≡ ok digest
      → seal h c clock db ≡ ok (written (transcript_of c clock db) (sealed_by c clock digest db))
  unfolding ◌>>=◌
  seal_done c clock db digest s e = ground (arith, s, e)

  close_done :
      (subject : String) (c : ControlClose) (clock : ℕ → ℕ) (db : Database)
      (p : CodexRow × InboxRecord) (runtime : ControlRuntime)
      (o : Result (Outcome ControlTranscript))
      → is_ok (validate_close c) ≡ true
      → lock_codex h subject c.binding.token false (clock 0) db ≡ ok p
      → lock_control_runtime h c.binding db ≡ ok runtime
      → runtime.state ≡ active
      → seal h c clock db ≡ o
      → close_control h subject c clock db ≡ o
  unfolding close_control ◌>>=◌ require
  close_done subject c clock db p runtime o v l k s q = ground (arith, v, l, k, s, q)

  -- After any history, while the runtime takes controls, the worker that holds the execution's row can
  -- seal the controls of its turn, whatever became of each: with a valid closure for the runtime's
  -- binding, clock readings that are not behind the last one of the history and a transcript that can
  -- be hashed, `CloseCodexControl` does not fail, and writes the transcript of all controls.
  pub close_control-succeeds :
      {past : ℕ} {db : Database} (subject : String) (c : ControlClose) (clock : ℕ → ℕ)
      (r : RuntimeRow) (p : CodexRow × InboxRecord) (digest : String)
      → History h past db
      → db.runtime ≡ some r
      → r.state ≡ active
      → c.binding ≡ r.binding
      → is_ok (validate_close c) ≡ true
      → lock_codex h subject c.binding.token false (clock 0) db ≡ ok p
      → ((n : ℕ) → past ≤ clock n)
      → ((n : ℕ) → 0 < clock n)
      → h.hash_transcript (transcript_of c clock db) ≡ ok digest
      → close_control h subject c clock db
        ≡ ok (written (transcript_of c clock db) (sealed_by c clock digest db))
  close_control-succeeds {past} {db} subject c clock r p digest history e on same v l late pos
        hash =
      let i = History-IsOpen h history in
      let s = i.standing r e (ap is_active on) in
      let (runtime, k, up) =
        active_lock c.binding r db e (sym same) s.valid_binding on s.no_transcript s.no_digest in
      let active_row : Active h db c.binding = record {
        row = r;
        stored = e;
        same = sym same;
        is_open = ap is_active on;
        valid = subst (λ b. is_ok (validate_binding b) ≡ true) (sym same) s.valid_binding;
      } in
      let members =
        subst (λ b. All (λ o. o.payload.binding ≡ b) (orders_of db.commands)) (sym same)
          (i.ordered.belong r e) in
      let rows =
        closed-Sealable c.turn_status c.binding past clock late pos db.commands s.timely members in
      let o = sealed-IsOrdered h db c clock "" i.ordered active_row in
      let sorted = by_sequence-Rising 0 (close_commands c.turn_status clock db.commands) o.rising in
      close_done subject c clock db p runtime _ v l k up (
        seal_done c clock db digest
          (subst (λ xs. all_ok (λ d. scan_control h d >>= λ _. ok tt) xs ≡ ok tt) (sym sorted)
            (All-scanned c.binding _ rows))
          (transcript_sound c clock db v o rows ∙ hash))
