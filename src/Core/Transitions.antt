-- ===== src/Core/Transitions.antt =====
-- The state machine of a work item (`Transition` of internal/core/work_state.go) as a diagram.
-- One step forward, or a cancellation of an item that is not yet at an end.
use engineering_platform.Prelude.{
  List, [], arith, inl, inr, ok, refl, true, ◌↔◌, ◌∙◌, ◌∷◌, ◌≡◌, ◌≢◌, ◌⊎◌,
}
use engineering_platform.Core.{
  WorkItem, WorkState, allowed, cancelled, closed, draft, executing, ready, reviewing, transition,
  verifying, work_state_beq_iff,
}

pub data Step : WorkState → WorkState → Type 0 where
  freeze : Step draft ready
  start : Step ready executing
  deliver : Step executing verifying
  verify : Step verifying reviewing
  close : Step reviewing closed
  cancel_draft : Step draft cancelled
  cancel_ready : Step ready cancelled
  cancel_executing : Step executing cancelled
  cancel_verifying : Step verifying cancelled
  cancel_reviewing : Step reviewing cancelled

ruleset steps = (
  freeze, start, deliver, verify, close, cancel_draft, cancel_ready, cancel_executing,
  cancel_verifying, cancel_reviewing,
)

allowed-Step : (s to : WorkState) → allowed s to ≡ true → Step s to
allowed-Step s to h = grind (arith, steps, work_state_beq_iff)

Step-allowed : {s to : WorkState} → Step s to → allowed s to ≡ true
Step-allowed freeze = refl
Step-allowed start = refl
Step-allowed deliver = refl
Step-allowed verify = refl
Step-allowed close = refl
Step-allowed cancel_draft = refl
Step-allowed cancel_ready = refl
Step-allowed cancel_executing = refl
Step-allowed cancel_verifying = refl
Step-allowed cancel_reviewing = refl

transition_result :
    (to : WorkState) (w : WorkItem)
    → ((transition to w).0 ≡ ok tt → (w.state ≡ to) ⊎ (allowed w.state to ≡ true))
      × ((w.state ≡ to) ⊎ (allowed w.state to ≡ true) → (transition to w).0 ≡ ok tt)
      × ((transition to w).0 ≡ ok tt → (transition to w).1 ≡ record w { state = to })
      × ((transition to w).0 ≢ ok tt → (transition to w).1 ≡ w)
unfolding transition
transition_result to w = ground (arith, work_state_beq_iff w.state to)

-- `Transition` succeeds exactly on the state the item has and on the steps of the diagram. It then
-- changes the state alone, and where it fails it changes nothing.
pub transition-Step :
    (to : WorkState) (w : WorkItem)
    → (((transition to w).0 ≡ ok tt) ↔ ((w.state ≡ to) ⊎ Step w.state to))
      × ((transition to w).0 ≡ ok tt → (transition to w).1 ≡ record w { state = to })
      × ((transition to w).0 ≢ ok tt → (transition to w).1 ≡ w)
transition-Step to w =
    let (a, b, c, d) = transition_result to w in
    (
      (
        λ h. elim (a h) [ inl e ↦ inl e | inr s ↦ inr (allowed-Step w.state to s) ],
        λ h. b (elim h [ inl e ↦ inl e | inr s ↦ inr (Step-allowed s) ]),
      ),
      c,
      d,
    )

-- The states an item has been moved to, the last one first, by calls that changed its state.
pub data Route (w : WorkItem) : List WorkState → WorkItem → Type 0 where
  here : Route w [] w
  move :
      {vs : List WorkState} {p : WorkItem} (to : WorkState)
      → Route w vs p
      → (transition to p).0 ≡ ok tt
      → p.state ≢ to
      → Route w (to ∷ vs) (transition to p).1

-- The one way from the draft to each state.
abbrev pub path : WorkState → List WorkState
path ready = ready ∷ []
path executing = executing ∷ ready ∷ []
path verifying = verifying ∷ executing ∷ ready ∷ []
path reviewing = reviewing ∷ verifying ∷ executing ∷ ready ∷ []
path closed = closed ∷ reviewing ∷ verifying ∷ executing ∷ ready ∷ []
path _ = []

transition-path :
    (to : WorkState) (p : WorkItem) (vs : List WorkState)
    → (transition to p).0 ≡ ok tt
    → p.state ≢ to
    → (p.state ≢ cancelled → vs ≡ path p.state)
    → (transition to p).1.state ≢ cancelled
    → to ∷ vs ≡ path (transition to p).1.state
unfolding transition
transition-path to p vs h ne ih nc = ground (arith, work_state_beq_iff p.state to)

-- An item that began as a draft and is not cancelled has been moved through every earlier state of
-- the diagram, in order and once: a closed item was ready, executing, verifying and reviewing.
pub Route-path :
    {w p : WorkItem} {vs : List WorkState}
    → w.state ≡ draft
    → Route w vs p
    → p.state ≢ cancelled
    → vs ≡ path p.state
Route-path d here nc = rw d
Route-path d (move {vs} {p} to r h ne) nc = transition-path to p vs h ne (Route-path d r) nc

cancelled_stays :
    (to : WorkState) (w : WorkItem)
    → (w.state ≡ cancelled) ⊎ (w.state ≡ closed)
    → (transition to w).1.state ≡ w.state
unfolding transition
cancelled_stays to w h = ground arith

-- No call moves a closed or cancelled item to another state.
pub Route-ended :
    {w p : WorkItem} {vs : List WorkState}
    → (w.state ≡ cancelled) ⊎ (w.state ≡ closed)
    → Route w vs p
    → p.state ≡ w.state
Route-ended e here = refl
Route-ended {w} e (move {p} to r h ne) =
    let q = Route-ended e r in
    cancelled_stays to p (elim e [ inl c ↦ inl (q ∙ c) | inr c ↦ inr (q ∙ c) ]) ∙ q
