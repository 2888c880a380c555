-- ===== src/Codex/Ordered.antt =====
-- The numbers, the names and the binding of a run's controls over a history
-- (internal/store/postgres/codex_controls.go).
use mathlib.Core.Path.{subst}
use engineering_platform.Session
use engineering_platform.Codex.Database.{CodexRow, Database, Digesting, RuntimeRow}
use engineering_platform.Codex.{
  ControlBinding, ControlClose, ControlDelivery, binding_eq, close_eq, delivery_state_eq, kind_eq,
  token_eq, turn_eq,
}
use engineering_platform.Codex.Transactions.{appended, bound, of_execution, sealed_by}
use engineering_platform.Codex.Controls.{find_command, first_queued}
use engineering_platform.Codex.Rules.{of_execution-none}
use engineering_platform.Codex.Changes.{
  Active, Change, binds, claims, dispatched, queues, resolved, seals, settles,
}
use engineering_platform.Codex.Orders.{
  Order, Rising, Rising-append, by_sequence-Rising, find_command-id, first_queued-found, ids,
  length-orders_of, order_of, orders_of, orders_of-append, orders_of-close_commands,
  orders_of-set_command,
}
use engineering_platform.Codex.History.{Drift, History, History-invariant}
use engineering_platform.Prelude.{
  ==_iff, All, Bool-cases, Distinct, List, Option, String, [], ap, arith, contains, false, inl, inr,
  length, length-append, nat_eq, none, refl, some, string_eq, sym, ℕ, ◌++◌, ◌<◌, ◌==◌, ◌||◌, ◌∙◌,
  ◌∷◌, ◌≡◌, ◌≤◌,
}

pub record IsOrdered (db : Database) : Type 0 where
  pub own :
      (r : RuntimeRow)
      → db.runtime ≡ some r
      → (row : CodexRow) × (db.execution ≡ some row) × (row.token ≡ r.binding.token)
  pub idle : db.runtime ≡ none → orders_of db.commands ≡ []
  pub belong :
      (r : RuntimeRow)
      → db.runtime ≡ some r
      → All (λ o. o.payload.binding ≡ r.binding) (orders_of db.commands)
  pub rising : Rising 0 (orders_of db.commands)
  pub below :
      (s : Session.Session)
      → db.session ≡ some s
      → All (λ o. o.command.sequence ≤ s.last_sequence) (orders_of db.commands)
  pub distinct : Distinct (ids (orders_of db.commands))
  pub few : length (orders_of db.commands) ≤ 64

-- The same orders, for the same binding, execution and session.
record Similar (db db' : Database) : Type 0 where
  orders : orders_of db'.commands ≡ orders_of db.commands
  runtimes :
      (r' : RuntimeRow)
      → db'.runtime ≡ some r'
      → (r : RuntimeRow) × (db.runtime ≡ some r) × (r'.binding ≡ r.binding)
  gone : db'.runtime ≡ none → db.runtime ≡ none
  executions :
      (row : CodexRow)
      → db.execution ≡ some row
      → (row' : CodexRow) × (db'.execution ≡ some row') × (row'.token ≡ row.token)
  sessions :
      (s' : Session.Session)
      → db'.session ≡ some s'
      → (s : Session.Session) × (db.session ≡ some s) × (s.last_sequence ≤ s'.last_sequence)

raise_below :
    (os : List Order) (m n : ℕ)
    → m ≤ n
    → All (λ o. o.command.sequence ≤ m) os
    → All (λ o. o.command.sequence ≤ n) os
raise_below [] m n le h = tt
raise_below (o ∷ os) m n le h = (omega arith, raise_below os m n le h.1)

strictly_below :
    (os : List Order) (m n : ℕ)
    → m < n
    → All (λ o. o.command.sequence ≤ m) os
    → All (λ o. o.command.sequence < n) os
strictly_below [] m n lt h = tt
strictly_below (o ∷ os) m n lt h = (omega arith, strictly_below os m n lt h.1)

module _ {db db' : Database} (i : IsOrdered db) (s : Similar db db') where
  abbrev moved : (P : List Order → Type 0) → P (orders_of db.commands) → P (orders_of db'.commands)
  moved P = subst P (sym s.orders)

  Similar-IsOrdered : IsOrdered db'
  Similar-IsOrdered = record {
    own = λ r' e.
        let (r, here, same) = s.runtimes r' e in
        let (row, stored, token) = i.own r here in
        let (row', stored', token') = s.executions row stored in
        (row', stored', token' ∙ token ∙ sym (ap (λ b. b.token) same));
    idle = λ e. s.orders ∙ i.idle (s.gone e);
    belong = λ r' e.
        let (r, here, same) = s.runtimes r' e in
        subst (λ b. All (λ o. o.payload.binding ≡ b) (orders_of db'.commands)) (sym same)
          (moved (All (λ o. o.payload.binding ≡ r.binding)) (i.belong r here));
    rising = moved (Rising 0) i.rising;
    below = λ s' e.
        let (s0, here, le) = s.sessions s' e in
        raise_below (orders_of db'.commands) s0.last_sequence s'.last_sequence le
          (moved (All (λ o. o.command.sequence ≤ s0.last_sequence)) (i.below s0 here));
    distinct = moved (λ os. Distinct (ids os)) i.distinct;
    few = moved (λ os. length os ≤ 64) i.few;
  }

pub Drift-IsOrdered : (db db' : Database) → IsOrdered db → Drift db db' → IsOrdered db'
Drift-IsOrdered db db' i d = Similar-IsOrdered i (record {
  orders = ap orders_of d.commands_kept;
  runtimes = λ r' e. (r', sym d.runtime_kept ∙ e, refl);
  gone = λ e. sym d.runtime_kept ∙ e;
  executions = d.execution_kept;
  sessions = d.session_rises;
})

replaced-IsOrdered :
    (db db' : Database)
    → IsOrdered db
    → orders_of db'.commands ≡ orders_of db.commands
    → db'.runtime ≡ db.runtime
    → db'.execution ≡ db.execution
    → db'.session ≡ db.session
    → IsOrdered db'
replaced-IsOrdered db db' i o r x s = Similar-IsOrdered i (record {
  orders = o;
  runtimes = λ r' e. (r', sym r ∙ e, refl);
  gone = λ e. sym r ∙ e;
  executions = λ row e. (row, x ∙ e, refl);
  sessions = λ s' e. (s', sym s ∙ e, omega arith);
})

pub sealed-IsOrdered :
    (h : Digesting) (db : Database) (c : ControlClose) (clock : ℕ → ℕ) (digest : String)
    → IsOrdered db
    → Active h db c.binding
    → IsOrdered (sealed_by c clock digest db)
sealed-IsOrdered h db c clock digest i on = Similar-IsOrdered i (record {
  orders = orders_of-close_commands c.turn_status clock db.commands;
  runtimes = λ r' e. (on.row, on.stored, ground (arith, e, on.same));
  gone = λ e. cc;
  executions = λ row e. (row, e, refl);
  sessions = λ s' e. (s', e, omega arith);
})

-- There is no row that a second binding could replace.
pub unbound :
    (db : Database) (row : CodexRow) (b : ControlBinding) (o : Option RuntimeRow)
    → IsOrdered db
    → db.runtime ≡ o
    → of_execution b.token.id db.runtime ≡ none
    → db.execution ≡ some row
    → row.token ≡ b.token
    → db.runtime ≡ none
unbound db row b none i e n p q = e
unbound db row b (some r) i e n p q =
    let (row', p', q') = i.own r e in
    let same : b.token ≡ r.binding.token = ground (arith, p, p', q, q') in
    absurd
      (of_execution-none db.runtime r e (subst (λ t. of_execution t.id db.runtime ≡ none) same n))

binds-IsOrdered :
    (db : Database) (b : ControlBinding) (row : CodexRow)
    → IsOrdered db
    → of_execution b.token.id db.runtime ≡ none
    → db.execution ≡ some row
    → row.token ≡ b.token
    → IsOrdered (bound b db)
binds-IsOrdered db b row i n p q =
    let nothing = i.idle (unbound db row b db.runtime i refl n p q) in
    record {
      own = λ r e. (row, p, ground (arith, q, e));
      idle = λ e. cc;
      belong = λ r e. subst (All (λ o. o.payload.binding ≡ r.binding)) (sym nothing) tt;
      rising = i.rising;
      below = i.below;
      distinct = i.distinct;
      few = i.few;
    }

All-append :
    (P : Order → Type 0) (os : List Order) (o : Order) → All P os → P o → All P (os ++ o ∷ [])
All-append P [] o h p = (p, tt)
All-append P (x ∷ os) o h p = (h.0, All-append P os o h.1 p)

contains-append :
    (os : List Order) (o : Order) (id : String)
    → contains (ids (os ++ o ∷ [])) id ≡ (contains (ids os) id || o.command.id == id)
unfolding contains
contains-append [] o id = ground arith
contains-append (x ∷ os) o id = ground (arith, contains-append os o id)

Distinct-append :
    (os : List Order) (o : Order)
    → Distinct (ids os)
    → contains (ids os) o.command.id ≡ false
    → Distinct (ids (os ++ o ∷ []))
unfolding contains
Distinct-append [] o h n = (refl, tt)
Distinct-append (x ∷ os) o h n = (
  ground (
    arith,
    contains-append os o x.command.id,
    h.0,
    n,
    ==_iff x.command.id o.command.id,
    ==_iff o.command.id x.command.id,
  ),
  Distinct-append os o h.1 (ground (arith, n)),
)

unnamed :
    (id : String) (xs : List ControlDelivery)
    → find_command id xs ≡ none
    → contains (ids (orders_of xs)) id ≡ false
unfolding find_command contains
unnamed id [] e = refl
unnamed id (x ∷ xs) e = elim (Bool-cases (x.command.id == id)) [
  | inl hit ↦ absurd (ground (arith, e, hit))
  | inr miss ↦ rw miss (unnamed id xs (rw miss at e))
]

queues-IsOrdered :
    (h : Digesting) (db : Database) (d : ControlDelivery) (s s' : Session.Session)
    → IsOrdered db
    → Active h db d.payload.binding
    → db.session ≡ some s
    → s.last_sequence < d.command.sequence
    → s'.last_sequence ≡ d.command.sequence
    → find_command d.command.id db.commands ≡ none
    → length db.commands < 64
    → IsOrdered (appended d s' db)
queues-IsOrdered h db d s s' i on here above set new few =
    let o = order_of d in
    let os = orders_of db.commands in
    let joined : orders_of (db.commands ++ d ∷ []) ≡ os ++ o ∷ [] =
      orders_of-append db.commands (d ∷ []) in
    let lower = strictly_below os s.last_sequence d.command.sequence above (i.below s here) in
    record {
      own = i.own;
      idle = λ e. absurd (ground (arith, e, on.stored));
      belong = λ r e.
          subst (All (λ x. x.payload.binding ≡ r.binding)) (sym joined)
            (All-append _ os o (i.belong r e) (ground (arith, e, on.stored, on.same)));
      rising = subst (Rising 0) (sym joined) (Rising-append 0 os o i.rising lower (omega arith));
      below = λ t e. subst (All (λ x. x.command.sequence ≤ t.last_sequence)) (sym joined) (
          All-append _ os o
            (raise_below os s.last_sequence t.last_sequence (ground (arith, e)) (i.below s here))
            (ground (arith, e)));
      distinct =
          subst (λ x. Distinct (ids x)) (sym joined)
            (Distinct-append os o i.distinct (unnamed d.command.id db.commands new));
      few =
          subst (λ x. length x ≤ 64) (sym joined)
            (omega (arith, length-append {0} os (o ∷ []), length-orders_of db.commands));
    }

pub Change-IsOrdered :
    (h : Digesting) (now : ℕ) (db db' : Database)
    → IsOrdered db
    → Change h now db db'
    → IsOrdered db'
Change-IsOrdered h now db _ i (binds b row v n p q) = binds-IsOrdered db b row i n p q
Change-IsOrdered h now db _ i (queues d s s' on v q t p r here above set new few alone) =
    queues-IsOrdered h db d s s' i on here above set new few
Change-IsOrdered h now db _ i (claims b d on e few v) =
    let (found, _) =
      first_queued-found db.commands d i.distinct
        (subst (λ x. first_queued x ≡ some d) (by_sequence-Rising 0 db.commands i.rising) e) in
    replaced-IsOrdered db _ i
      (orders_of-set_command d.command.id db.commands d (dispatched now d) found refl) refl refl
      refl
Change-IsOrdered h now db _ i (settles b id outcome d on found q o v) =
    let same = find_command-id id db.commands d found in
    replaced-IsOrdered db _ i
      (orders_of-set_command d.command.id db.commands d (resolved outcome now d)
        (subst (λ x. find_command x db.commands ≡ some d) (sym same) found) refl)
      refl refl refl
Change-IsOrdered h now db _ i (seals c clock digest on e) =
    sealed-IsOrdered h db c clock digest i on

pub empty-IsOrdered : (db : Database) → db.runtime ≡ none → db.commands ≡ [] → IsOrdered db
empty-IsOrdered db e n =
    let nothing : orders_of db.commands ≡ [] = ap orders_of n in
    record {
      own = λ r e'. absurd (ground (arith, e, e'));
      idle = λ _. nothing;
      belong = λ r e'. absurd (ground (arith, e, e'));
      rising = subst (Rising 0) (sym nothing) tt;
      below = λ s _. subst (All (λ o. o.command.sequence ≤ s.last_sequence)) (sym nothing) tt;
      distinct = subst (λ os. Distinct (ids os)) (sym nothing) tt;
      few = subst (λ os. length os ≤ 64) (sym nothing) (omega arith);
    }

-- In every history the sequence numbers of a run's live controls rise from 1 on, up to the session's
-- last one, no two have a name in common, there are at most 64, and all are for the binding of the
-- runtime, whose token is that of the run's execution.
pub History-IsOrdered : (h : Digesting) {now : ℕ} {db : Database} → History h now db → IsOrdered db
History-IsOrdered h =
    History-invariant h (λ _. IsOrdered) (λ _. empty-IsOrdered) (λ _ _ _ _ i. i)
      (Change-IsOrdered h) (λ _. Drift-IsOrdered)
