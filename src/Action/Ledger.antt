-- ===== src/Action/Ledger.antt =====
-- The state machine of an external operation (`Transition` of internal/action/ledger.go) as a
-- diagram: which steps are accepted, that none is taken twice, and what an ambiguous effect can
-- never become without evidence.
use mathlib.Core.Path.{subst}
use engineering_platform.Prelude.{arith, ok, refl, sym, true, ℕ, ◌<◌, ◌↔◌, ◌∙◌, ◌≡◌, ◌≢◌}
use engineering_platform.Action.{
  Operation, RiskClass, State, confirmed, dispatched, manual, observe, planned, reconciling,
  risk_beq_iff, safe_to_retry, transition, unknown, valid_step,
}

-- The edges of the diagram, at an operation of risk `r`.
pub data Edge (r : RiskClass) : State → State → Type 0 where
  dispatch : Edge r planned dispatched
  confirm : Edge r dispatched confirmed
  lose : Edge r dispatched unknown
  take_up : Edge r unknown reconciling
  give_up : Edge r reconciling manual
  observed : r ≡ observe → Edge r reconciling confirmed

ruleset edges = (dispatch, confirm, lose, take_up, give_up, observed)

-- How far an operation has come.
abbrev pub rank : State → ℕ
rank planned = 0
rank dispatched = 1
rank unknown = 2
rank reconciling = 3
rank _ = 4

valid_step-Edge : (s to : State) (r : RiskClass) → valid_step s r to ≡ true → Edge r s to
unfolding valid_step
valid_step-Edge planned to r h = grind (arith, edges, risk_beq_iff)
valid_step-Edge _ to r h = grind (arith, edges, risk_beq_iff)

Edge-valid_step : {s to : State} (r : RiskClass) → Edge r s to → valid_step s r to ≡ true
unfolding valid_step
Edge-valid_step r dispatch = refl
Edge-valid_step r confirm = refl
Edge-valid_step r lose = refl
Edge-valid_step r take_up = refl
Edge-valid_step r give_up = refl
Edge-valid_step r (observed e) = rw e

transition-ok :
    (to : State) (now : ℕ) (o : Operation)
    → (transition to now o).0 ≡ ok tt
    → valid_step o.state o.risk_class to ≡ true
unfolding transition
transition-ok to now o h = ground arith

ok-transition :
    (to : State) (now : ℕ) (o : Operation)
    → valid_step o.state o.risk_class to ≡ true
    → (transition to now o).0 ≡ ok tt
unfolding transition
ok-transition to now o h = ground arith

transition_result :
    (to : State) (now : ℕ) (o : Operation)
    → ((transition to now o).0 ≡ ok tt
        → (transition to now o).1 ≡ record o { state = to; updated_at = now })
      × ((transition to now o).0 ≢ ok tt → (transition to now o).1 ≡ o)
unfolding transition
transition_result to now o = ground arith

-- `Transition` succeeds exactly on the edges of the diagram; then it changes only the state and the
-- time, and otherwise it changes nothing.
pub transition-Edge :
    (to : State) (now : ℕ) (o : Operation)
    → (((transition to now o).0 ≡ ok tt) ↔ Edge o.risk_class o.state to)
      × ((transition to now o).0 ≡ ok tt
          → (transition to now o).1 ≡ record o { state = to; updated_at = now })
      × ((transition to now o).0 ≢ ok tt → (transition to now o).1 ≡ o)
transition-Edge to now o = (
  (
    λ h. valid_step-Edge o.state to o.risk_class (transition-ok to now o h),
    λ e. ok-transition to now o (Edge-valid_step o.risk_class e),
  ),
  (transition_result to now o).0,
  (transition_result to now o).1,
)

-- Every accepted step leads to a state of a higher rank, further along the diagram.
pub transition-rank :
    (to : State) (now : ℕ) (o : Operation)
    → (transition to now o).0 ≡ ok tt
    → rank o.state < rank to
unfolding transition valid_step
transition-rank to now o h = ground arith

-- The states that an operation goes through, by steps that `Transition` accepts.
pub data Steps : Operation → Operation → Type 0 where
  here : {o : Operation} → Steps o o
  next :
      {o p : Operation} (to : State) (now : ℕ)
      → Steps o p
      → (transition to now p).0 ≡ ok tt
      → Steps o (transition to now p).1

-- What an effect of unknown outcome is confined to.
abbrev IsAmbiguous : State → Type 0
IsAmbiguous unknown = Unit
IsAmbiguous reconciling = Unit
IsAmbiguous manual = Unit
IsAmbiguous _ = ⊥

transition-IsAmbiguous :
    (to : State) (now : ℕ) (o : Operation)
    → o.risk_class ≢ observe
    → IsAmbiguous o.state
    → IsAmbiguous (transition to now o).1.state
      × ((transition to now o).1.risk_class ≡ o.risk_class)
unfolding transition valid_step
transition-IsAmbiguous to now o r a = ground (arith, risk_beq_iff o.risk_class observe)

Steps-IsAmbiguous :
    {o p : Operation}
    → o.risk_class ≢ observe
    → IsAmbiguous o.state
    → Steps o p
    → IsAmbiguous p.state × (p.risk_class ≡ o.risk_class)
Steps-IsAmbiguous r a here = (a, refl)
Steps-IsAmbiguous r a (next {p = p} to now st h) =
    let (b, e) = Steps-IsAmbiguous r a st in
    let (c, e') = transition-IsAmbiguous to now p (λ q. r (sym e ∙ q)) b in (c, e' ∙ e)

not-IsAmbiguous :
    {s : State} → IsAmbiguous s → (s ≢ confirmed) × (s ≢ safe_to_retry) × (s ≢ planned)
not-IsAmbiguous {s = unknown} a = (λ e. cc, λ e. cc, λ e. cc)
not-IsAmbiguous {s = reconciling} a = (λ e. cc, λ e. cc, λ e. cc)
not-IsAmbiguous {s = manual} a = (λ e. cc, λ e. cc, λ e. cc)
not-IsAmbiguous {s = _} a = elim a [ ]

-- An operation that may have had an effect and whose outcome is unknown is never confirmed, made
-- safe to retry or planned again by ordinary steps, unless it only observes.
pub ambiguous-never_settled :
    {o p : Operation}
    → o.risk_class ≢ observe
    → o.state ≡ unknown
    → Steps o p
    → (p.state ≢ confirmed) × (p.state ≢ safe_to_retry) × (p.state ≢ planned)
ambiguous-never_settled {o} r u st =
    not-IsAmbiguous (Steps-IsAmbiguous r (subst IsAmbiguous (sym u) tt) st).0
