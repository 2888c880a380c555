-- ===== src/Action/Service/Authority.antt =====
-- On what authority `Service.Execute` (internal/action/service.go) calls the provider.
use mathlib.Core.Path.{subst}
use engineering_platform.Prelude.{
  Context, Error, List, Option, Post, Result, String, Triple, Triple-bind, Triple-end, Triple-if,
  Triple-keep, Triple-still, Triple_after, ap, arith, err, inl, inr, is_ok, message, nat_eq, not,
  ok, refl, still-ctx_err, string_eq, true, ℕ, ◌==◌, ◌∙◌, ◌≡◌, ◌⊎◌,
}
use engineering_platform.Action.{Operation, Request, risk_eq, state_eq}
use engineering_platform.Action.Repository.{IsLedger}
use engineering_platform.Action.Service.{
  Service, World, ask, check, denied_by, errors_is, execute, is_absent, reserve,
}
use engineering_platform.Action.Service.Rules.{Triple-when_ok, still-stop_if}

denied_by-ok : (r : Result (Unit {0})) → is_ok (denied_by r) ≡ true → is_ok r ≡ true
denied_by-ok (ok u) h = refl
denied_by-ok (err e) h = ground (arith, h)

module _ {S : Type 0} (svc : Service S) (ctx : ℕ → Context) (clock : ℕ → ℕ) (req : Request) (s : S)
    (calls : List Request) where
  -- The three guards pass in the state `s` of the ledger.
  abbrev pub Allowed : Type 0
  Allowed =
      (is_ok (svc.authorize (ctx 3) req s) ≡ true)
      × (is_ok (svc.check_run_epoch (ctx 4) req.run_id req.execution_epoch s) ≡ true)
      × (is_ok (svc.check_recovery_epoch (ctx 5) req.recovery_epoch req.risk_class s) ≡ true)

  abbrev Before : Type 0 → World S → Type 0
  Before C w = C × (w.dispatches ≡ calls) × (w.ledger ≡ s)

  abbrev Excused : World S → Type 0
  Excused w = (w.dispatches ≡ calls) ⊎ Allowed

  excuse : {C : Type 0} (e : Error) (w : World S) → Before C w → Excused w
  excuse e w (c, d, l) = inl d

  gate-Post :
      (C : Type 0) (f : S → Result (Unit {0})) (w : World S) (r : Result (Unit {0}))
      → f w.ledger ≡ r
      → Before C w
      → Post (λ _. Before (C × (is_ok (f s) ≡ true))) (λ _. Excused) r w
  gate-Post C f w (ok u) e (c, d, l) = ((c, subst (λ t. is_ok (f t) ≡ true) l (rw e)), d, l)
  gate-Post C f w (err x) e (c, d, l) = inl d

  gate :
      (C : Type 0) (f : S → Result (Unit {0}))
      → Triple (Before C) (check f) (λ _. Before (C × (is_ok (f s) ≡ true))) (λ _. Excused)
  gate C f = record { at = λ w h. gate-Post C f w (f w.ledger) refl h }

  reserve-Excused :
      (digest : String)
      → Triple (Before Unit) (reserve svc ctx clock req digest) (λ _. Excused) (λ _. Excused)
  unfolding reserve
  reserve-Excused digest = Triple-bind (Triple-still (still-ctx_err (ctx 2) 0) excuse) λ _.
      Triple-bind (gate Unit (λ t. denied_by (svc.authorize (ctx 3) req t))) λ _.
        Triple-bind (Triple-still (still-ctx_err (ctx 3) 0) excuse) λ _.
          Triple-bind (gate _ (svc.check_run_epoch (ctx 4) req.run_id req.execution_epoch)) λ _.
            Triple-bind (Triple-still (still-ctx_err (ctx 4) 0) excuse) λ _.
              Triple-bind
                (gate _ (svc.check_recovery_epoch (ctx 5) req.recovery_epoch req.risk_class))
                λ _. Triple-end λ w (c, d, l).
                  inr (denied_by-ok (svc.authorize (ctx 3) req s) c.0.0.1, c.0.1, c.1)

  execute-Excused :
      ((key : String) (t : S) → (svc.repository.get_by_key (ctx 1) key t).1 ≡ t)
      → Triple (Before Unit) (execute svc ctx clock req) (λ _. Excused) (λ _. Excused)
  unfolding execute
  execute-Excused still =
      Triple-bind
        (Triple-still
          (still-stop_if (not svc.configured) (message "action service is not fully configured"))
          excuse)
        λ _.
          Triple-bind
            (Triple-still
              (still-stop_if (req.idempotency_key == "") (message "idempotency key is required"))
              excuse)
            λ _. Triple-bind (Triple-still (still-ctx_err (ctx 0) 0) excuse) λ _.
              Triple-bind (Triple-still (λ w. refl) excuse) λ digest.
                Triple-bind
                  (Triple-keep (λ w (c, d, l). (c, d, still req.idempotency_key w.ledger ∙ l))
                    excuse)
                  λ known.
                    Triple-when_ok known (λ existing. Triple-end (λ w (c, d, l). inl d))
                      λ e.
                        Triple-if (errors_is is_absent e) (reserve-Excused digest)
                          (Triple-end (λ w (c, d, l). inl d))

-- An execution over a ledger that keeps its promises asks the provider only if, in the state of
-- the ledger that it began in, the authorizer grants the request and both the run's epoch and the
-- recovery epoch pass their guards.
pub execute-Allowed :
    {S : Type 0} (svc : Service S) (view : S → String → Option Operation) (ctx : ℕ → Context)
    (clock : ℕ → ℕ) (req : Request) (w : World S)
    → IsLedger svc.repository view
    → ((execute svc ctx clock req w).1.dispatches ≡ w.dispatches)
      ⊎ Allowed svc ctx clock req w.ledger w.dispatches
execute-Allowed svc view ctx clock req w ledger =
    Triple_after
      (execute-Excused svc ctx clock req w.ledger w.dispatches
        (λ key t. ledger.get_by_key_still (ctx 1) key t))
      w (tt, refl, refl)

-- Over any ledger, the guards pass in the state that the first lookup leaves.
module _ {S : Type 0} (svc : Service S) (ctx : ℕ → Context) (clock : ℕ → ℕ) (req : Request)
    (w : World S) where
  abbrev found : S
  found = (svc.repository.get_by_key (ctx 1) req.idempotency_key w.ledger).1

  abbrev Begun : World S → Type 0
  Begun v = (v.dispatches ≡ w.dispatches) × (v.ledger ≡ w.ledger)

  Begun-Excused :
      (e : Error) (v : World S) → Begun v → Excused svc ctx clock req found w.dispatches v
  Begun-Excused e v (d, l) = inl d

  found-Excused :
      Triple Begun
        (execute svc ctx clock req)
        (λ _. Excused svc ctx clock req found w.dispatches)
        (λ _. Excused svc ctx clock req found w.dispatches)
  unfolding execute
  found-Excused =
      Triple-bind
        (Triple-still
          (still-stop_if (not svc.configured) (message "action service is not fully configured"))
          Begun-Excused)
        λ _.
          Triple-bind
            (Triple-still
              (still-stop_if (req.idempotency_key == "") (message "idempotency key is required"))
              Begun-Excused)
            λ _. Triple-bind (Triple-still (still-ctx_err (ctx 0) 0) Begun-Excused) λ _.
              Triple-bind (Triple-still (λ v. refl) Begun-Excused) λ digest.
                Triple-bind (looked_up) λ known.
                  Triple-when_ok known (λ existing. Triple-end (λ v (c, d, l). inl d))
                    λ e.
                      Triple-if (errors_is is_absent e)
                        (reserve-Excused svc ctx clock req found w.dispatches digest)
                        (Triple-end (λ v (c, d, l). inl d))
    where
      looked_up :
          Triple Begun
            (ask (svc.repository.get_by_key (ctx 1) req.idempotency_key))
            (λ _. Before svc ctx clock req found w.dispatches Unit)
            (λ _. Excused svc ctx clock req found w.dispatches)
      looked_up = record {
        at = λ v (d, l).
            (tt, d, ap (λ t. (svc.repository.get_by_key (ctx 1) req.idempotency_key t).1) l);
      }

  pub found-Allowed :
      ((execute svc ctx clock req w).1.dispatches ≡ w.dispatches)
      ⊎ Allowed svc ctx clock req found w.dispatches
  found-Allowed = Triple_after found-Excused w (refl, refl)
