-- ===== src/Action/Service/Execution.antt =====
-- `Service.Execute` from its start to its settlement: what its caller and the ledger end up knowing.
use mathlib.Core.Path.{subst}
use engineering_platform.Prelude.{
  Context, Error, List, Option, Post, Result, String, Triple, Triple-bind, Triple-if, Triple-keep,
  Triple-pure, Triple-raise, Triple-still, ap, arith, err, inl, inr, lift, message, nat_eq, not, ok,
  refl, some, still-ctx_err, string_eq, true, ℕ, ◌==◌, ◌∙◌, ◌∷◌, ◌≡◌, ◌⊎◌,
}
use engineering_platform.Action.{
  Operation, Receipt, Request, State, confirmed, dispatched, new_operation, receipt_from_operation,
  risk_eq, state_eq, state_name, transition, unknown,
}
use engineering_platform.Action.Repository.{IsLedger}
use engineering_platform.Action.Service.{
  Asked, DispatchOutcome, DispatchResult, Service, World, answer_existing, answer_raced,
  call_dispatch, dispatch_confirmed, dispatch_reserved, dispatch_unknown, dispatch_verdict,
  errors_is, execute, is_absent, is_exists, moved, other_dispatch, reserve, settle, settle_unknown,
}
use engineering_platform.Action.Service.Rules.{Triple-when_ok, still-stop_if}
use engineering_platform.Action.Service.Dispatches.{settle-Asked, settle_unknown-Asked}
use engineering_platform.Action.Service.Settlement.{
  is_unresolved, lost, settle_error, settle_receipt, settle_unknown_error, settle_unknown_receipt,
  settled,
}

-- A dispatch confirms or loses the operation, whatever the provider answers.
dispatch_verdict-to :
    (o : DispatchOutcome) (r : DispatchResult)
    → ((dispatch_verdict o r).to ≡ confirmed) ⊎ ((dispatch_verdict o r).to ≡ unknown)
unfolding dispatch_verdict
dispatch_verdict-to dispatch_confirmed r = inl refl
dispatch_verdict-to dispatch_unknown r = inr refl
dispatch_verdict-to (other_dispatch o) r = inr refl

receipt-result :
    (id : String) (op : Operation) (now : ℕ)
    → (receipt_from_operation id op now).result ≡ state_name op.state
unfolding receipt_from_operation
receipt-result id op now = refl

transition-id : (to : State) (now : ℕ) (op : Operation) → (transition to now op).1.id ≡ op.id
unfolding transition
transition-id to now op = ground arith

-- The receipt tells the state in which the ledger holds the operation of a request.
abbrev pub Settled :
    {S : Type 0} → (S → String → Option Operation) → Request → Receipt → World S → Type 0
Settled view req t w =
    (op : Operation) × (view w.ledger req.id ≡ some op)
    × ((op.state ≡ confirmed) ⊎ (op.state ≡ unknown))
    × (t.result ≡ state_name op.state)

module _ {S : Type 0} (svc : Service S) (view : S → String → Option Operation)
    (ledger : IsLedger svc.repository view) (ctx : ℕ → Context) (clock : ℕ → ℕ)
    (calls : List Request) (seen : List Operation) (req : Request) where
  abbrev Known : Receipt → World S → Type 0
  Known t w = (w.dispatches ≡ calls) ⊎ ((w.dispatches ≡ req ∷ calls) × Settled view req t w)

  abbrev Failed : Error → World S → Type 0
  Failed e w = (w.dispatches ≡ calls) ⊎ ((w.dispatches ≡ req ∷ calls) × (is_unresolved e ≡ true))

  unasked : (e : Error) (w : World S) → Asked calls seen w → Failed e w
  unasked e w h = inl h.0

  settle-Post :
      (op : Operation) (o : DispatchOutcome) (d : DispatchResult) (w : World S) (r : Result Receipt)
      → op.id ≡ req.id
      → (settle svc ctx clock req.id op (dispatch_verdict o d) w).0 ≡ r
      → Asked (req ∷ calls) seen w
      → Post Known Failed r (settle svc ctx clock req.id op (dispatch_verdict o d) w).1
  settle-Post op o d w (ok t) i h a =
      let v = dispatch_verdict o d in
      let (held, e, _) = settle_receipt svc view ledger ctx clock req.id op v w t h in
      inr (
        (settle-Asked svc ctx clock (req ∷ calls) seen req.id op v w a).0,
        (
          settled op v (clock 2),
          subst
              (λ k.
                view (settle svc ctx clock req.id op v w).1.ledger k
                ≡ some (settled op v (clock 2)))
              i held,
          dispatch_verdict-to o d,
          rw e (receipt-result req.id (settled op v (clock 2)) (clock 3)),
        ),
      )
  settle-Post op o d w (err e) i h a =
      let v = dispatch_verdict o d in
      inr (
        (settle-Asked svc ctx clock (req ∷ calls) seen req.id op v w a).0,
        settle_error svc view ledger ctx clock req.id op v w e h,
      )

  settle_unknown-Post :
      (op : Operation) (w : World S) (r : Result Receipt)
      → op.id ≡ req.id
      → (settle_unknown svc ctx clock req op w).0 ≡ r
      → Asked (req ∷ calls) seen w
      → Post Known Failed r (settle_unknown svc ctx clock req op w).1
  settle_unknown-Post op w (ok t) i h a =
      let (held, e) = settle_unknown_receipt svc view ledger ctx clock req op w t h in
      inr (
        (settle_unknown-Asked svc ctx clock (req ∷ calls) seen req op w a).0,
        (
          lost (clock 2) op,
          subst
              (λ k.
                view (settle_unknown svc ctx clock req op w).1.ledger k ≡ some (lost (clock 2) op))
              i held,
          inr refl,
          rw e (receipt-result req.id (lost (clock 2) op) (clock 3)),
        ),
      )
  settle_unknown-Post op w (err e) i h a = inr (
    (settle_unknown-Asked svc ctx clock (req ∷ calls) seen req op w a).0,
    settle_unknown_error svc view ledger ctx clock req op w e h,
  )

  abbrev AskedFor : Operation → World S → Type 0
  AskedFor op w = Asked calls seen w × (op.id ≡ req.id)

  moved-Post :
      (op : Operation)
      → op.id ≡ req.id
      → Triple (Asked calls seen) (moved (λ e. e) dispatched (clock 1) op) AskedFor Failed
  moved-Post op i =
      Triple-when_ok (transition dispatched (clock 1) op).0
        (λ _.
          Triple-pure (transition dispatched (clock 1) op).1
            (λ w h. (h, transition-id dispatched (clock 1) op ∙ i)))
        (λ e. Triple-raise e (λ w h. inl h.0))

  called-Post :
      (op : Operation)
      → Triple
          (AskedFor op)
          (call_dispatch svc ctx clock req)
          (λ _ w. Asked (req ∷ calls) seen w × (op.id ≡ req.id))
          Failed
  unfolding call_dispatch
  called-Post op = record { at = λ w h. ((ap (λ l. req ∷ l) h.0.0, h.0.1), h.1) }

  dispatch_reserved-Post :
      (op : Operation)
      → op.id ≡ req.id
      → Triple (Asked calls seen) (dispatch_reserved svc ctx clock req op) Known Failed
  unfolding dispatch_reserved
  dispatch_reserved-Post op i = Triple-bind (Triple-still (still-ctx_err (ctx 8) 0) unasked) λ _.
      Triple-bind (moved-Post op i) λ op'.
        Triple-bind (Triple-keep (λ w h. h) (λ e w h. unasked e w h.0)) λ _.
          Triple-bind (Triple-still (still-ctx_err (ctx 10) 0) (λ e w h. unasked e w h.0)) λ _.
            Triple-bind (called-Post op') λ answer.
              Triple-when_ok answer
                (λ d. record { at = λ w h. settle-Post op' d.outcome d w _ h.1 refl h.0 })
                (λ e. record { at = λ w h. settle_unknown-Post op' w _ h.1 refl h.0 })

  Known-Post : (r : Result Receipt) (w : World S) → Asked calls seen w → Post Known Failed r w
  Known-Post (ok t) w h = inl h.0
  Known-Post (err e) w h = inl h.0

  answered : (r : Result Receipt) → Triple (Asked calls seen) (lift r) Known Failed
  answered r = record { at = λ w h. Known-Post r w h }

  new-id : (digest : String) (now : ℕ) → (new_operation req digest now).id ≡ req.id
  unfolding new_operation
  new-id digest now = refl

  reserve-Post :
      (digest : String) → Triple (Asked calls seen) (reserve svc ctx clock req digest) Known Failed
  unfolding reserve
  reserve-Post digest = Triple-bind (Triple-still (still-ctx_err (ctx 2) 0) unasked) λ _.
      Triple-bind (Triple-still (λ w. refl) unasked) λ _.
        Triple-bind (Triple-still (still-ctx_err (ctx 3) 0) unasked) λ _.
          Triple-bind (Triple-still (λ w. refl) unasked) λ _.
            Triple-bind (Triple-still (still-ctx_err (ctx 4) 0) unasked) λ _.
              Triple-bind (Triple-still (λ w. refl) unasked) λ _.
                Triple-bind (Triple-still (still-ctx_err (ctx 5) 0) unasked) λ _.
                  Triple-bind (Triple-keep (λ w h. h) unasked) λ created.
                    Triple-when_ok created
                      (λ _.
                        dispatch_reserved-Post (new_operation req digest (clock 1))
                          (new-id digest (clock 1)))
                      λ e.
                        Triple-if (errors_is is_exists e)
                          (Triple-bind (Triple-keep (λ w h. h) unasked)
                            λ existing. answered (answer_raced req digest e existing (clock 0)))
                          (Triple-raise e (λ w h. unasked e w h))

  execute-Post : Triple (Asked calls seen) (execute svc ctx clock req) Known Failed
  unfolding execute
  execute-Post =
      Triple-bind
        (Triple-still
          (still-stop_if (not svc.configured) (message "action service is not fully configured"))
          unasked)
        λ _.
          Triple-bind
            (Triple-still
              (still-stop_if (req.idempotency_key == "") (message "idempotency key is required"))
              unasked)
            λ _. Triple-bind (Triple-still (still-ctx_err (ctx 0) 0) unasked) λ _.
              Triple-bind (Triple-still (λ w. refl) unasked) λ digest.
                Triple-bind (Triple-keep (λ w h. h) unasked) λ known.
                  Triple-when_ok known
                    (λ existing. answered (answer_existing req digest existing (clock 0)))
                    λ e.
                      Triple-if (errors_is is_absent e) (reserve-Post digest)
                        (Triple-raise e (λ w h. unasked e w h))

-- What an execution tells its caller, once the provider was asked: a receipt for the state,
-- CONFIRMED or UNKNOWN, in which the ledger holds the operation, or an unresolved effect.
abbrev pub Told :
    {S : Type 0} → (S → String → Option Operation) → Request → Result Receipt → World S → Type 0
Told view req (ok t) w = Settled view req t w
Told view req (err e) w = is_unresolved e ≡ true

told :
    {S : Type 0} (view : S → String → Option Operation) (req : Request) (calls : List Request)
    (r : Result Receipt) (w : World S)
    → Post
        (λ t v. (v.dispatches ≡ calls) ⊎ ((v.dispatches ≡ req ∷ calls) × Settled view req t v))
        (λ e v. (v.dispatches ≡ calls) ⊎ ((v.dispatches ≡ req ∷ calls) × (is_unresolved e ≡ true)))
        r
        w
    → (w.dispatches ≡ calls) ⊎ ((w.dispatches ≡ req ∷ calls) × Told view req r w)
told view req calls (ok t) w h = h
told view req calls (err e) w h = h

-- An execution over a ledger that keeps its promises either never asks the provider, or asks it
-- once and then ends in a receipt for the state, CONFIRMED or UNKNOWN, in which the ledger holds the
-- operation, or in an error that says that the effect is unresolved.
pub execute-Told :
    {S : Type 0} (svc : Service S) (view : S → String → Option Operation) (ctx : ℕ → Context)
    (clock : ℕ → ℕ) (req : Request) (w : World S)
    → IsLedger svc.repository view
    → let (r, w') = execute svc ctx clock req w in
      (w'.dispatches ≡ w.dispatches) ⊎ ((w'.dispatches ≡ req ∷ w.dispatches) × Told view req r w')
execute-Told svc view ctx clock req w ledger =
    let (r, w') = execute svc ctx clock req w in
    told view req w.dispatches r w'
      ((execute-Post svc view ledger ctx clock w.dispatches w.observations req).at w (refl, refl))
