-- ===== src/Action/Service/Reconciliation.antt =====
-- What `Service.Reconcile` (internal/action/service.go) asks of the provider.
use engineering_platform.Prelude.{
  Bool, Bool-cases, Context, Error, Exec, List, Option, Post, Result, String, Triple, Triple-bind,
  Triple-end, Triple-keep, Triple-still, Triple_after, ap, arith, err, false, if◌then◌else◌, inl,
  inr, invalid_transition, is_ok, message, nat_eq, not, ok, pure, raise, refl, sentinel, some,
  still-ctx_err, string_eq, true, ℕ, ◌!=◌, ◌>>=◌, ◌∷◌, ◌≡◌, ◌⊎◌,
}
use engineering_platform.Action.{
  Operation, Request, manual, reconciling, risk_eq, state_eq, transition, unknown, valid_step,
}
use engineering_platform.Action.Repository.{IsLedger}
use engineering_platform.Action.Service.{
  Asked, Service, Verdict, World, call_reconcile, moved, on_ledger, reconcile, reconcile_verdict,
  settle, settle_external_effect, settle_manual, when_ok,
}
use engineering_platform.Action.Service.Rules.{Triple-when_ok, still-stop_if}
use engineering_platform.Action.Service.Dispatches.{settle-Asked, settle_manual-Asked}

-- The ledger `before`, in which `op` stands as RECONCILING, has become `ledger` by at most one write,
-- of the same operation.
pub record Observed {S : Type 0} (svc : Service S) (view : S → String → Option Operation)
    (ctx : ℕ → Context) (op : Operation) (ledger : S) : Type 0 where
  pub before : S
  pub reconciling_op : op.state ≡ reconciling
  pub stored : view before op.id ≡ some op
  pub after :
      (ledger ≡ before)
      ⊎ ((last : Operation) × (last.id ≡ op.id)
          × (ledger ≡ (svc.repository.update (ctx 11) last before).1))

module _ {S : Type 0} (svc : Service S) (view : S → String → Option Operation) (ctx : ℕ → Context)
    (clock : ℕ → ℕ) (calls : List Request) (seen : List Operation)
    (laws : IsLedger svc.repository view) where
  -- At most one observation was added, of an operation that is being reconciled.
  abbrev ObservedOnce : World S → Type 0
  ObservedOnce w =
      (w.dispatches ≡ calls)
      × ((w.observations ≡ seen)
          ⊎ ((op : Operation) × (w.observations ≡ op ∷ seen) × Observed svc view ctx op w.ledger))

  early : (e : Error) (w : World S) → Asked calls seen w → ObservedOnce w
  early e w (d, o) = (d, inl o)

  abbrev Ready : Operation → World S → Type 0
  Ready op w = Asked calls seen w × (op.state ≡ reconciling)

  early-Ready : (op : Operation) (e : Error) (w : World S) → Ready op w → ObservedOnce w
  early-Ready op e w (a, r) = early e w a

  -- The operation stands in the ledger too.
  abbrev Stored : Operation → World S → Type 0
  Stored op w = Ready op w × (view w.ledger op.id ≡ some op)

  early-Stored : (op : Operation) (e : Error) (w : World S) → Stored op w → ObservedOnce w
  early-Stored op e w (a, r) = early-Ready op e w a

  moved-Ready :
      (op : Operation)
      → Triple
          (Asked calls seen)
          (moved (λ e. e) reconciling (clock 1) op)
          Ready
          (λ _. ObservedOnce)
  unfolding transition
  moved-Ready op = record { at = λ w h. split (valid_step op.state op.risk_class reconciling) w h }
    where
      split :
          (b : Bool) (w : World S)
          → Asked calls seen w
          → let t : Result Unit × Operation =
              if not b
              then (err (sentinel invalid_transition), op)
              else (ok tt, record op { state = reconciling; updated_at = clock 1 }) in
            let m : Exec (World S) Operation = when_ok t.0 (λ _. pure t.1) (λ e. raise e) in
            Post Ready (λ _. ObservedOnce) (m w).0 (m w).1
      split true w h = (h, refl)
      split false w h = (h.0, inl h.1)

  update-Stored :
      (op : Operation)
      → Triple
          (Ready op)
          (on_ledger (svc.repository.update (ctx 4) op))
          (λ _. Stored op)
          (λ _. ObservedOnce)
  update-Stored op = record {
    at = λ w h.
        let (r, s) = svc.repository.update (ctx 4) op w.ledger in
        split r s w h (λ t. laws.update_done (ctx 4) op w.ledger t);
  }
    where
      split :
          (r : Result Unit) (s : S) (w : World S)
          → Ready op w
          → (is_ok r ≡ true → view s op.id ≡ some op)
          → Post (λ _. Stored op) (λ _. ObservedOnce) r (record w { ledger = s })
      split (ok u) s w h done = (h, done refl)
      split (err e) s w h done = early-Ready op e (record w { ledger = s }) h

  -- The provider has been asked about the operation that stands in the ledger.
  abbrev Seen : Operation → World S → Type 0
  Seen op w = Asked calls (op ∷ seen) w × (op.state ≡ reconciling) × (view w.ledger op.id ≡ some op)

  call_reconcile-Seen :
      (op : Operation)
      → Triple (Stored op) (call_reconcile svc ctx clock op) (λ _. Seen op) (λ _. ObservedOnce)
  unfolding call_reconcile
  call_reconcile-Seen op = record { at = λ w h. ((h.0.0.0, ap (λ l. op ∷ l) h.0.0.1), h.0.1, h.1) }

  -- What settlement leaves of the ledger.
  abbrev Last : Operation → S → S → Type 0
  Last op s t =
      (t ≡ s)
      ⊎ ((last : Operation) × (last.id ≡ op.id) × (t ≡ (svc.repository.update (ctx 11) last s).1))

  settle_effect-ledger :
      (op : Operation) (w : World S)
      → (settle_external_effect svc ctx clock op w).1.ledger
        ≡ (svc.repository.update (ctx 11) op w.ledger).1
  unfolding settle_external_effect ◌>>=◌
  settle_effect-ledger op w = ground arith

  settle-Last :
      (op : Operation) (v : Verdict) (w : World S)
      → Last op w.ledger (settle svc ctx clock "" op v w).1.ledger
  unfolding settle settle_external_effect transition ◌>>=◌
  settle-Last op v w = elim (Bool-cases (valid_step op.state op.risk_class v.to)) [
    | inl t ↦ inr (
      record op {
        state = v.to;
        updated_at = clock 2;
        external_ref = v.external_ref;
        observed_state = v.observed_state;
      },
      refl,
      ground (arith, t),
    )
    | inr f ↦ inl (ground (arith, f))
  ]

  settle_manual-Last :
      (op : Operation) (w : World S) → Last op w.ledger (settle_manual svc ctx clock op w).1.ledger
  unfolding settle_manual settle_external_effect ◌>>=◌
  settle_manual-Last op w =
      inr (record op { state = manual; updated_at = clock 2 }, refl, ground arith)

  Seen-ObservedOnce :
      (op : Operation) (w v : World S)
      → Seen op w
      → Asked calls (op ∷ seen) v
      → Last op w.ledger v.ledger
      → ObservedOnce v
  Seen-ObservedOnce op w v (a, r, st) (d, o) l =
      (d, inr (op, o, record { before = w.ledger; reconciling_op = r; stored = st; after = l }))

  reconcile-ObservedOnce :
      (operation_id : String)
      → Triple
          (Asked calls seen)
          (reconcile svc ctx clock operation_id)
          (λ _. ObservedOnce)
          (λ _. ObservedOnce)
  unfolding reconcile
  reconcile-ObservedOnce operation_id =
      Triple-bind
        (Triple-still
          (still-stop_if (not svc.can_reconcile)
            (message "action reconcile service is not fully configured"))
          early)
        λ _. Triple-bind (Triple-still (still-ctx_err (ctx 0) 0) early) λ _.
          Triple-bind (Triple-keep (λ w h. h) early) λ op.
            Triple-bind (Triple-still (still-ctx_err (ctx 2) 0) early) λ _.
              Triple-bind
                (Triple-still
                  (still-stop_if (op.state != unknown) (message "operation is not UNKNOWN")) early)
                λ _. Triple-bind (moved-Ready op) λ op'.
                  Triple-bind (Triple-still (still-ctx_err (ctx 3) 0) (early-Ready op')) λ _.
                    Triple-bind (update-Stored op') λ _.
                      Triple-bind (Triple-still (still-ctx_err (ctx 5) 0) (early-Stored op')) λ _.
                        Triple-bind (call_reconcile-Seen op') λ answer.
                          Triple-when_ok answer
                            (λ r. Triple-end λ w h.
                              let v = reconcile_verdict r.outcome op'.risk_class r in
                              Seen-ObservedOnce op' w (settle svc ctx clock "" op' v w).1 h
                                (settle-Asked svc ctx clock calls (op' ∷ seen) "" op' v w h.0)
                                (settle-Last op' v w))
                            (λ e. Triple-end λ w h.
                              Seen-ObservedOnce op' w (settle_manual svc ctx clock op' w).1 h
                                (settle_manual-Asked svc ctx clock calls (op' ∷ seen) op' w h.0)
                                (settle_manual-Last op' w))

-- Over any ledger that keeps its promises, a reconciliation never dispatches anything, and asks the
-- provider at most once. If it asked, then about an operation in the state RECONCILING, and the
-- ledger in which that operation stands so has become the final one by at most one write, of the
-- same operation.
pub reconcile-ObservedOnce_lem :
    {S : Type 0} (svc : Service S) (view : S → String → Option Operation) (ctx : ℕ → Context)
    (clock : ℕ → ℕ) (operation_id : String) (w : World S)
    → IsLedger svc.repository view
    → let w' = (reconcile svc ctx clock operation_id w).1 in
      (w'.dispatches ≡ w.dispatches)
      × ((w'.observations ≡ w.observations)
          ⊎ ((op : Operation) × (w'.observations ≡ op ∷ w.observations)
              × Observed svc view ctx op w'.ledger))
reconcile-ObservedOnce_lem svc view ctx clock operation_id w laws =
    Triple_after
      (reconcile-ObservedOnce svc view ctx clock w.dispatches w.observations laws operation_id) w
      (refl, refl)
