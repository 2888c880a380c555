-- ===== src/Action/Service/Dispatches.antt =====
-- How often, and on what authority, `Service.Execute` and `Service.Reconcile` call the provider.
use engineering_platform.Prelude.{
  Context, Error, List, String, Triple, Triple-bind, Triple-end, Triple-if, Triple-keep,
  Triple-still, Triple_after, ap, arith, inl, inr, message, nat_eq, not, refl, still-ctx_err,
  string_eq, ℕ, ◌==◌, ◌>>=◌, ◌∷◌, ◌≡◌, ◌⊎◌,
}
use engineering_platform.Action.{Operation, Request, dispatched, new_operation, risk_eq, state_eq}
use engineering_platform.Action.Service.{
  Asked, Service, Verdict, World, call_dispatch, dispatch_reserved, dispatch_verdict, errors_is,
  execute, is_absent, is_exists, reserve, settle, settle_external_effect, settle_manual,
  settle_unknown,
}
use engineering_platform.Action.Service.Rules.{
  Triple-when_ok, on_ledger-Asked, still-moved, still-stop_if,
}

module _ {S : Type 0} (svc : Service S) (ctx : ℕ → Context) (clock : ℕ → ℕ) where
  pub settle-Asked :
      (calls : List Request) (seen : List Operation) (id : String) (op : Operation) (v : Verdict)
      (w : World S)
      → Asked calls seen w
      → Asked calls seen (settle svc ctx clock id op v w).1
  unfolding settle settle_external_effect ◌>>=◌
  settle-Asked calls seen id op v w h = ground arith

  pub settle_unknown-Asked :
      (calls : List Request) (seen : List Operation) (req : Request) (op : Operation) (w : World S)
      → Asked calls seen w
      → Asked calls seen (settle_unknown svc ctx clock req op w).1
  unfolding settle_unknown settle_external_effect ◌>>=◌
  settle_unknown-Asked calls seen req op w h = ground arith

  pub settle_manual-Asked :
      (calls : List Request) (seen : List Operation) (op : Operation) (w : World S)
      → Asked calls seen w
      → Asked calls seen (settle_manual svc ctx clock op w).1
  unfolding settle_manual settle_external_effect ◌>>=◌
  settle_manual-Asked calls seen op w h = ground arith

module _ {S : Type 0} (svc : Service S) (ctx : ℕ → Context) (clock : ℕ → ℕ) (calls : List Request)
    (seen : List Operation) (req : Request) where
  abbrev AskedOnce : World S → Type 0
  AskedOnce w = ((w.dispatches ≡ calls) ⊎ (w.dispatches ≡ req ∷ calls)) × (w.observations ≡ seen)

  early : (e : Error) (w : World S) → Asked calls seen w → AskedOnce w
  early e w h = (inl h.0, h.1)

  late : (w : World S) → Asked (req ∷ calls) seen w → AskedOnce w
  late w h = (inr h.0, h.1)

  call_dispatch-Asked :
      Triple
        (Asked calls seen)
        (call_dispatch svc ctx clock req)
        (λ _. Asked (req ∷ calls) seen)
        (λ _. AskedOnce)
  unfolding call_dispatch
  call_dispatch-Asked = record { at = λ w h. (ap (λ l. req ∷ l) h.0, h.1) }

  settle-late :
      (op : Operation) (v : Verdict)
      → Triple
          (Asked (req ∷ calls) seen)
          (settle svc ctx clock req.id op v)
          (λ _. AskedOnce)
          (λ _. AskedOnce)
  settle-late op v = Triple-end λ w h.
      late (settle svc ctx clock req.id op v w).1
        (settle-Asked svc ctx clock (req ∷ calls) seen req.id op v w h)

  settle_unknown-late :
      (op : Operation)
      → Triple
          (Asked (req ∷ calls) seen)
          (settle_unknown svc ctx clock req op)
          (λ _. AskedOnce)
          (λ _. AskedOnce)
  settle_unknown-late op = Triple-end λ w h.
      late (settle_unknown svc ctx clock req op w).1
        (settle_unknown-Asked svc ctx clock (req ∷ calls) seen req op w h)

  dispatch_reserved-AskedOnce :
      (op : Operation)
      → Triple
          (Asked calls seen)
          (dispatch_reserved svc ctx clock req op)
          (λ _. AskedOnce)
          (λ _. AskedOnce)
  unfolding dispatch_reserved call_dispatch
  dispatch_reserved-AskedOnce op = Triple-bind (Triple-still (still-ctx_err (ctx 8) 0) early) λ _.
      Triple-bind (Triple-still (still-moved (λ e. e) dispatched (clock 1) op) early) λ op'.
        Triple-bind
          (Triple-keep (on_ledger-Asked (svc.repository.update (ctx 9) op') calls seen) early)
          λ _. Triple-bind (Triple-still (still-ctx_err (ctx 10) 0) early) λ _.
            Triple-bind call_dispatch-Asked λ answer.
              Triple-when_ok answer (λ r. settle-late op' (dispatch_verdict r.outcome r))
                (λ e. settle_unknown-late op')

  reserve-AskedOnce :
      (digest : String)
      → Triple
          (Asked calls seen)
          (reserve svc ctx clock req digest)
          (λ _. AskedOnce)
          (λ _. AskedOnce)
  unfolding reserve
  reserve-AskedOnce digest = Triple-bind (Triple-still (still-ctx_err (ctx 2) 0) early) λ _.
      Triple-bind (Triple-still (λ w. refl) early) λ _.
        Triple-bind (Triple-still (still-ctx_err (ctx 3) 0) early) λ _.
          Triple-bind (Triple-still (λ w. refl) early) λ _.
            Triple-bind (Triple-still (still-ctx_err (ctx 4) 0) early) λ _.
              Triple-bind (Triple-still (λ w. refl) early) λ _.
                Triple-bind (Triple-still (still-ctx_err (ctx 5) 0) early) λ _.
                  Triple-bind (Triple-keep (λ w h. h) early) λ created.
                    Triple-when_ok created
                      (λ _. dispatch_reserved-AskedOnce (new_operation req digest (clock 1)))
                      λ e.
                        Triple-if (errors_is is_exists e)
                          (Triple-bind (Triple-keep (λ w h. h) early)
                            λ existing. Triple-end (λ w h. (inl h.0, h.1)))
                          (Triple-end (λ w h. (inl h.0, h.1)))

  execute-AskedOnce :
      Triple (Asked calls seen) (execute svc ctx clock req) (λ _. AskedOnce) (λ _. AskedOnce)
  unfolding execute
  execute-AskedOnce =
      Triple-bind
        (Triple-still
          (still-stop_if (not svc.configured) (message "action service is not fully configured"))
          early)
        λ _.
          Triple-bind
            (Triple-still
              (still-stop_if (req.idempotency_key == "") (message "idempotency key is required"))
              early)
            λ _. Triple-bind (Triple-still (still-ctx_err (ctx 0) 0) early) λ _.
              Triple-bind (Triple-still (λ w. refl) early) λ digest.
                Triple-bind (Triple-keep (λ w h. h) early) λ known.
                  Triple-when_ok known (λ existing. Triple-end (λ w h. (inl h.0, h.1)))
                    λ e.
                      Triple-if (errors_is is_absent e) (reserve-AskedOnce digest)
                        (Triple-end (λ w h. (inl h.0, h.1)))

-- One execution of a request asks the provider for it at most once, and observes nothing.
pub execute-AskedOnce_lem :
    {S : Type 0} (svc : Service S) (ctx : ℕ → Context) (clock : ℕ → ℕ) (req : Request) (w : World S)
    → let w' = (execute svc ctx clock req w).1 in
      ((w'.dispatches ≡ w.dispatches) ⊎ (w'.dispatches ≡ req ∷ w.dispatches))
      × (w'.observations ≡ w.observations)
execute-AskedOnce_lem svc ctx clock req w =
    Triple_after (execute-AskedOnce svc ctx clock w.dispatches w.observations req) w (refl, refl)
