-- ===== src/Codex/Timely.antt =====
-- The validity and the times of the rows while a runtime takes controls
-- (internal/store/postgres/codex_controls.go).
use mathlib.Core.Path.{subst}
use engineering_platform.Codex.Database.{Database, Digesting, RuntimeRow}
use engineering_platform.Codex.{
  ControlDelivery, binding_eq, close_eq, delivery_state_eq, kind_eq, token_eq, turn_eq,
}
use engineering_platform.Codex.Controls.{find_command, first_queued, is_active, set_command}
use engineering_platform.Codex.Checks.{validate_binding}
use engineering_platform.Codex.Rules.{is_valid}
use engineering_platform.Codex.Changes.{
  Change, binds, claims, dispatched, queues, resolved, seals, settles,
}
use engineering_platform.Codex.Orders.{by_sequence-Rising, first_queued-found, orders_of}
use engineering_platform.Codex.History.{Drift, History, History-invariant}
use engineering_platform.Codex.Ordered.{
  Change-IsOrdered, Drift-IsOrdered, IsOrdered, empty-IsOrdered, unbound,
}
use engineering_platform.Prelude.{
  All, Bool-cases, List, Option, String, [], arith, inl, inr, is_ok, nat_eq, none, refl, some,
  string_eq, sym, true, ℕ, ◌++◌, ◌==◌, ◌∙◌, ◌∷◌, ◌≡◌, ◌≤◌,
}

abbrev pub AtMost : Option ℕ → ℕ → Type 0
AtMost none now = Unit {0}
AtMost (some t) now = t ≤ now

AtMost-later : (o : Option ℕ) (m n : ℕ) → m ≤ n → AtMost o m → AtMost o n
AtMost-later none m n le h = tt
AtMost-later (some t) m n le h = omega arith

pub record IsTimely (h : Digesting) (now : ℕ) (d : ControlDelivery) : Type 0 where
  pub valid : is_valid h d ≡ true
  pub created : d.command.created_at ≤ now
  pub dispatched_before : AtMost d.dispatched_at now
  pub resolved_before : AtMost d.resolved_at now

-- The row of a runtime that takes controls, with the controls of its run.
pub record Standing (h : Digesting) (now : ℕ) (r : RuntimeRow) (ds : List ControlDelivery)
    : Type 0 where
  pub valid_binding : is_ok (validate_binding r.binding) ≡ true
  pub no_transcript : r.transcript ≡ none
  pub no_digest : r.digest ≡ none
  pub timely : All (IsTimely h now) ds

pub record IsOpen (h : Digesting) (now : ℕ) (db : Database) : Type 0 where
  pub ordered : IsOrdered db
  pub standing :
      (r : RuntimeRow)
      → db.runtime ≡ some r
      → is_active r.state ≡ true
      → Standing h now r db.commands

no_orders : (ds : List ControlDelivery) → orders_of ds ≡ [] → ds ≡ []
no_orders [] e = refl
no_orders (d ∷ ds) e = cc

module _ (h : Digesting) where
  pub later-IsTimely :
      (m n : ℕ) (ds : List ControlDelivery) → m ≤ n → All (IsTimely h m) ds → All (IsTimely h n) ds
  later-IsTimely m n [] le a = tt
  later-IsTimely m n (d ∷ ds) le a = (
    record {
      valid = a.0.valid;
      created = omega (arith, a.0.created);
      dispatched_before = AtMost-later d.dispatched_at m n le a.0.dispatched_before;
      resolved_before = AtMost-later d.resolved_at m n le a.0.resolved_before;
    },
    later-IsTimely m n ds le a.1,
  )

  ages-IsOpen : (past now : ℕ) (db : Database) → past ≤ now → IsOpen h past db → IsOpen h now db
  ages-IsOpen past now db le i = record {
    ordered = i.ordered;
    standing = λ r e up.
        let s = i.standing r e up in
        record {
          valid_binding = s.valid_binding;
          no_transcript = s.no_transcript;
          no_digest = s.no_digest;
          timely = later-IsTimely past now db.commands le s.timely;
        };
  }

  -- The same runtime, with other rows that are timely.
  kept-IsOpen :
      (now : ℕ) (db db' : Database)
      → IsOpen h now db
      → IsOrdered db'
      → db'.runtime ≡ db.runtime
      → (All (IsTimely h now) db.commands → All (IsTimely h now) db'.commands)
      → IsOpen h now db'
  kept-IsOpen now db db' i o same move = record {
    ordered = o;
    standing = λ r e up.
        let s = i.standing r (sym same ∙ e) up in
        record {
          valid_binding = s.valid_binding;
          no_transcript = s.no_transcript;
          no_digest = s.no_digest;
          timely = move s.timely;
        };
  }

  append-IsTimely :
      (now : ℕ) (ds : List ControlDelivery) (d : ControlDelivery)
      → All (IsTimely h now) ds
      → IsTimely h now d
      → All (IsTimely h now) (ds ++ d ∷ [])
  append-IsTimely now [] d a t = (t, tt)
  append-IsTimely now (x ∷ ds) d a t = (a.0, append-IsTimely now ds d a.1 t)

  set-IsTimely :
      (now : ℕ) (id : String) (d' : ControlDelivery) (ds : List ControlDelivery)
      → IsTimely h now d'
      → All (IsTimely h now) ds
      → All (IsTimely h now) (set_command id d' ds)
  unfolding set_command
  set-IsTimely now id d' [] t a = tt
  set-IsTimely now id d' (x ∷ ds) t a = elim (Bool-cases (x.command.id == id)) [
    | inl hit ↦ rw hit (t, a.1)
    | inr miss ↦ rw miss (a.0, set-IsTimely now id d' ds t a.1)
  ]

  found-IsTimely :
      (now : ℕ) (id : String) (ds : List ControlDelivery) (d : ControlDelivery)
      → find_command id ds ≡ some d
      → All (IsTimely h now) ds
      → IsTimely h now d
  unfolding find_command
  found-IsTimely now id [] d e a = cc
  found-IsTimely now id (x ∷ ds) d e a = elim (Bool-cases (x.command.id == id)) [
    | inl hit ↦ subst (IsTimely h now) (ground (arith, rw hit at e)) a.0
    | inr miss ↦ found-IsTimely now id ds d (rw miss at e) a.1
  ]

  Change-IsOpen :
      (now : ℕ) (db db' : Database) → IsOpen h now db → Change h now db db' → IsOpen h now db'
  Change-IsOpen now db _ i (binds b row v n p q) =
      let o = Change-IsOrdered h now db _ i.ordered (binds b row v n p q) in
      let nothing =
        no_orders db.commands (i.ordered.idle (unbound db row b db.runtime i.ordered refl n p q)) in
      record {
        ordered = o;
        standing = λ r e up. record {
          valid_binding = subst (λ x. is_ok (validate_binding x) ≡ true) (ground (arith, e)) v;
          no_transcript = ground (arith, e);
          no_digest = ground (arith, e);
          timely = subst (All (IsTimely h now)) (sym nothing) tt;
        };
      }
  Change-IsOpen now db _ i (queues d s s' on v q t p r here above set new few alone) =
      kept-IsOpen now db _ i
        (Change-IsOrdered h now db _ i.ordered
          (queues d s s' on v q t p r here above set new few alone))
        refl
        (λ a. append-IsTimely now db.commands d a (record {
          valid = v;
          created = omega (arith, t);
          dispatched_before = subst (λ x. AtMost x now) (sym p) tt;
          resolved_before = subst (λ x. AtMost x now) (sym r) tt;
        }))
  Change-IsOpen now db _ i (claims b d on e few v) =
      let o = i.ordered in
      let (found, _) =
        first_queued-found db.commands d o.distinct
          (subst (λ x. first_queued x ≡ some d) (by_sequence-Rising 0 db.commands o.rising) e) in
      kept-IsOpen now db _ i (Change-IsOrdered h now db _ o (claims b d on e few v)) refl (λ a.
        let t = found-IsTimely now d.command.id db.commands d found a in
        set-IsTimely now d.command.id (dispatched now d) db.commands
          (record {
            valid = v;
            created = t.created;
            dispatched_before = omega arith;
            resolved_before = t.resolved_before;
          })
          a)
  Change-IsOpen now db _ i (settles b id outcome d on found q o v) =
      kept-IsOpen now db _ i
        (Change-IsOrdered h now db _ i.ordered (settles b id outcome d on found q o v)) refl
        (λ a.
          let t = found-IsTimely now id db.commands d found a in
          set-IsTimely now d.command.id (resolved outcome now d) db.commands
            (record {
              valid = v;
              created = t.created;
              dispatched_before = t.dispatched_before;
              resolved_before = omega arith;
            })
            a)
  Change-IsOpen now db _ i (seals c clock digest on e) = record {
    ordered = Change-IsOrdered h now db _ i.ordered (seals c clock digest on e);
    standing = λ r q up. absurd (ground (arith, q, up));
  }

  Drift-IsOpen : (now : ℕ) (db db' : Database) → IsOpen h now db → Drift db db' → IsOpen h now db'
  Drift-IsOpen now db db' i d =
      kept-IsOpen now db db' i (Drift-IsOrdered db db' i.ordered d) d.runtime_kept
        (subst (All (IsTimely h now)) (sym d.commands_kept))

  -- In every history, while a runtime takes controls, its binding is valid, nothing is sealed, and the
  -- rows of the controls are valid with no time after the last reading of the clock.
  pub History-IsOpen : {now : ℕ} {db : Database} → History h now db → IsOpen h now db
  History-IsOpen =
      History-invariant h (IsOpen h)
        (λ now db e n. record {
          ordered = empty-IsOrdered db e n;
          standing = λ r q. absurd (ground (arith, e, q));
        })
        ages-IsOpen Change-IsOpen Drift-IsOpen
