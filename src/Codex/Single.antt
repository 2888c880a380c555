-- ===== src/Codex/Single.antt =====
-- One control at a time, and what a sealed transcript stands for
-- (internal/store/postgres/codex_controls.go, `AllowsDelivery` of internal/codexexec/control.go).
use mathlib.Core.Path.{subst}
use engineering_platform.ProcessScope
use engineering_platform.Codex.Database.{Database, Digesting, RuntimeRow}
use engineering_platform.Codex.{
  ControlBinding, ControlDelivery, ControlTranscript, DeliveryState, TurnStatus, binding_eq,
  close_eq, completed, delivery_state_beq_iff, delivery_state_eq, kind_beq_iff, kind_eq, sealed,
  steer, steer_accepted, token_eq, turn_beq_iff, turn_eq,
}
use engineering_platform.Codex.Transactions.{transcript_of}
use engineering_platform.Codex.Controls.{
  any_pending, close_command, close_commands, find_command, first_queued, is_active, is_pending,
  set_command,
}
use engineering_platform.Codex.Transcripts.{all_accepted, allows_delivery, transcript_digest}
use engineering_platform.Codex.Rules.{both}
use engineering_platform.Codex.Changes.{
  Active, Change, binds, claims, dispatched, queues, resolved, seals, settles,
}
use engineering_platform.Codex.Orders.{by_sequence-Rising, find_command-id, first_queued-found}
use engineering_platform.Codex.History.{Drift, History, History-invariant}
use engineering_platform.Codex.Ordered.{
  Change-IsOrdered, Drift-IsOrdered, IsOrdered, empty-IsOrdered,
}
use engineering_platform.Prelude.{
  All, Bool, Bool-cases, List, String, [], ap, arith, false, inl, inr, is_ok, nat_eq, refl, some,
  string_eq, sym, true, ℕ, ◌&&◌, ◌++◌, ◌+◌, ◌==◌, ◌∙◌, ◌∷◌, ◌≡◌, ◌≤◌,
}

abbrev pub one_if : Bool → ℕ
one_if true = 1
one_if false = 0

-- The controls that were handed out and whose end is not known.
abbrev pub pending : List ControlDelivery → ℕ
pending [] = 0
pending (d ∷ ds) = one_if (is_pending d.state) + pending ds

pending-none : (ds : List ControlDelivery) → any_pending ds ≡ false → pending ds ≡ 0
pending-none [] e = refl
pending-none (d ∷ ds) e = ground (arith, e, pending-none ds)

pending-append :
    (ds : List ControlDelivery) (d : ControlDelivery)
    → pending (ds ++ d ∷ []) ≡ pending ds + one_if (is_pending d.state)
pending-append [] d = omega arith
pending-append (x ∷ ds) d = omega (arith, pending-append ds d)

pending-set :
    (id : String) (ds : List ControlDelivery) (d d' : ControlDelivery)
    → find_command id ds ≡ some d
    → pending (set_command id d' ds) + one_if (is_pending d.state)
      ≡ pending ds + one_if (is_pending d'.state)
unfolding find_command set_command
pending-set id [] d d' e = cc
pending-set id (x ∷ ds) d d' e = elim (Bool-cases (x.command.id == id)) [
  | inl hit ↦
      let same : x ≡ d = ground (arith, rw hit at e) in
      rw hit (omega (arith, ap (λ y. one_if (is_pending y.state)) same))
  | inr miss ↦ rw miss (omega (arith, pending-set id ds d d' (rw miss at e)))
]

pending-close_command :
    (turn : TurnStatus) (now : ℕ) (d : ControlDelivery)
    → one_if (is_pending (close_command turn now d).state) ≤ one_if (is_pending d.state)
unfolding close_command
pending-close_command turn now d = ground arith

pending-close :
    (turn : TurnStatus) (clock : ℕ → ℕ) (ds : List ControlDelivery)
    → pending (close_commands turn clock ds) ≤ pending ds
unfolding close_commands
pending-close turn clock [] = omega arith
pending-close turn clock (d ∷ ds) =
    omega
      (arith, pending-close_command turn (clock 0) d, pending-close turn (λ n. clock (n + 1)) ds)

outcome_pending : (s : DeliveryState) → one_if (is_pending s) ≤ 1
outcome_pending s = ground arith

-- A sealed runtime's row: the transcript is of all the controls that there are.
pub record IsSealed (h : Digesting) (r : RuntimeRow) (ds : List ControlDelivery) : Type 0 where
  pub transcript : ControlTranscript
  pub stored : r.transcript ≡ some transcript
  pub complete : transcript.deliveries ≡ ds
  pub same : transcript.close.binding ≡ r.binding
  pub accepted : is_ok (transcript_digest h.hash_payload h.hash_transcript transcript) ≡ true

pub record IsSingle (h : Digesting) (db : Database) : Type 0 where
  pub ordered : IsOrdered db
  pub single : pending db.commands ≤ 1
  pub finished :
      (r : RuntimeRow) → db.runtime ≡ some r → is_active r.state ≡ false → IsSealed h r db.commands

module _ (h : Digesting) where
  -- The runtime still takes controls, and nothing is sealed.
  open-IsSingle :
      (db db' : Database) (b : ControlBinding)
      → IsOrdered db'
      → pending db'.commands ≤ 1
      → Active h db b
      → db'.runtime ≡ db.runtime
      → IsSingle h db'
  open-IsSingle db db' b o one on same = record {
    ordered = o;
    single = one;
    finished = λ r e off. absurd (ground (arith, sym same ∙ e, on.stored, on.is_open, off));
  }

  Change-IsSingle :
      (now : ℕ) (db db' : Database) → IsSingle h db → Change h now db db' → IsSingle h db'
  Change-IsSingle now db _ i (binds b row v n p q) = record {
    ordered = Change-IsOrdered h now db _ i.ordered (binds b row v n p q);
    single = i.single;
    finished = λ r e off. absurd (ground (arith, e, off));
  }
  Change-IsSingle now db _ i (queues d s s' on v q t p r here above set new few alone) =
      open-IsSingle db _ d.payload.binding
        (Change-IsOrdered h now db _ i.ordered
          (queues d s s' on v q t p r here above set new few alone))
        (omega (arith, i.single, pending-append db.commands d, ap (λ x. one_if (is_pending x)) q))
        on refl
  Change-IsSingle now db _ i (claims b d on e few v) =
      let o = i.ordered in
      let (found, _) =
        first_queued-found db.commands d o.distinct
          (subst (λ x. first_queued x ≡ some d) (by_sequence-Rising 0 db.commands o.rising) e) in
      open-IsSingle db _ b (Change-IsOrdered h now db _ o (claims b d on e few v))
        (omega (
          arith,
          pending-none db.commands few,
          pending-set d.command.id db.commands d (dispatched now d) found,
        ))
        on refl
  Change-IsSingle now db _ i (settles b id outcome d on found q o v) =
      let same = find_command-id id db.commands d found in
      open-IsSingle db _ b
        (Change-IsOrdered h now db _ i.ordered (settles b id outcome d on found q o v))
        (omega (
          arith,
          i.single,
          outcome_pending outcome,
          ap (λ x. one_if (is_pending x)) q,
          pending-set d.command.id db.commands d (resolved outcome now d)
              (subst (λ x. find_command x db.commands ≡ some d) (sym same) found),
        ))
        on refl
  Change-IsSingle now db _ i (seals c clock digest on e) =
      let o = Change-IsOrdered h now db _ i.ordered (seals c clock digest on e) in
      record {
        ordered = o;
        single = omega (arith, i.single, pending-close c.turn_status clock db.commands);
        finished = λ r q off. record {
          transcript = transcript_of c clock db;
          stored = ground (arith, q);
          complete = by_sequence-Rising 0 (close_commands c.turn_status clock db.commands) o.rising;
          same = ground (arith, q);
          accepted = ap is_ok e;
        };
      }

  Drift-IsSingle : (db db' : Database) → IsSingle h db → Drift db db' → IsSingle h db'
  Drift-IsSingle db db' i d = record {
    ordered = Drift-IsOrdered db db' i.ordered d;
    single = subst (λ ds. pending ds ≤ 1) (sym d.commands_kept) i.single;
    finished = λ r e off.
        subst (IsSealed h r) (sym d.commands_kept) (i.finished r (sym d.runtime_kept ∙ e) off);
  }

  -- In every history at most one of a run's controls was handed out without a known end, and once the
  -- runtime is sealed, its transcript passes its own checks and holds exactly the controls of the run.
  pub History-IsSingle : {now : ℕ} {db : Database} → History h now db → IsSingle h db
  History-IsSingle =
      History-invariant h (λ _. IsSingle h)
        (λ now db e n. record {
          ordered = empty-IsOrdered db e n;
          single = subst (λ ds. pending ds ≤ 1) (sym n) (omega arith);
          finished = λ r q. absurd (ground (arith, e, q));
        })
        (λ _ _ _ _ i. i) Change-IsSingle (λ _. Drift-IsSingle)

  accepted-All :
      (ds : List ControlDelivery)
      → all_accepted ds ≡ true
      → All (λ d. (d.payload.kind ≡ steer) × (d.state ≡ steer_accepted)) ds
  accepted-All [] e = tt
  accepted-All (d ∷ ds) e =
      let (k, rest) =
        both (d.payload.kind == steer) (d.state == steer_accepted && all_accepted ds)
          (ground (arith, e)) in
      let (s, more) = both (d.state == steer_accepted) (all_accepted ds) rest in
      (
        (
          (kind_beq_iff d.payload.kind steer).0 k,
          (delivery_state_beq_iff d.state steer_accepted).0 s,
        ),
        accepted-All ds more,
      )

  -- In every history, if the transcript of a sealed runtime allows the delivery of the result, then
  -- every control that was ever queued for the run is a steering that the runtime accepted, none of
  -- them an interrupt, and the turn was observed to complete with its process tree gone.
  pub allows_delivery-accepted :
      {now : ℕ} {db : Database} (r : RuntimeRow) (t : ControlTranscript)
      → History h now db
      → db.runtime ≡ some r
      → r.state ≡ sealed
      → r.transcript ≡ some t
      → allows_delivery h.hash_payload h.hash_transcript t ≡ true
      → All (λ d. (d.payload.kind ≡ steer) × (d.state ≡ steer_accepted)) db.commands
        × (t.close.turn_status ≡ completed)
        × (t.close.process_scope.init_reaped ≡ true)
  unfolding allows_delivery
  allows_delivery-accepted {db} r t history e off here ok' =
      let s = (History-IsSingle history).finished r e (ap is_active off) in
      let same : s.transcript ≡ t = ground (arith, here, s.stored) in
      let (front, every) = both _ (all_accepted t.deliveries) ok' in
      let (head, gone) = both _ (ProcessScope.quiescent t.close.process_scope) front in
      let (_, turn) = both _ (t.close.turn_status == completed) head in
      (
        subst (All (λ d. (d.payload.kind ≡ steer) × (d.state ≡ steer_accepted)))
            (ap (λ x. x.deliveries) (sym same) ∙ s.complete) (accepted-All t.deliveries every),
        (turn_beq_iff t.close.turn_status completed).0 turn,
        (both (is_ok (ProcessScope.validate t.close.process_scope))
            t.close.process_scope.init_reaped gone).1,
      )
