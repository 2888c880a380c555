-- ===== src/Action/Service/Settlement.antt =====
-- What the ledger and the caller know once the provider was asked.
use engineering_platform.Prelude.{
  Bool, Context, Error, Option, String, arith, err, external_effect_unresolved, false, ok, some,
  true, wrapped, ℕ, ◌>>=◌, ◌≡◌,
}
use engineering_platform.Action.{
  Operation, Receipt, Request, receipt_from_operation, transition, unknown,
}
use engineering_platform.Action.Repository.{IsLedger}
use engineering_platform.Action.Service.{
  Service, Verdict, World, settle, settle_external_effect, settle_unknown,
}

-- errors.Is(err, ErrExternalEffectUnresolved)
abbrev pub is_unresolved : Error → Bool
is_unresolved (wrapped external_effect_unresolved e) = true
is_unresolved _ = false

-- The operation whose dispatch failed.
abbrev pub lost : ℕ → Operation → Operation
lost now op = record op { state = unknown; updated_at = now }

-- The operation that a verdict leaves behind.
abbrev pub settled : Operation → Verdict → ℕ → Operation
settled op v now = record op {
  state = v.to;
  updated_at = now;
  external_ref = v.external_ref;
  observed_state = v.observed_state;
}

module _ {S : Type 0} (svc : Service S) (view : S → String → Option Operation)
    (ledger : IsLedger svc.repository view) (ctx : ℕ → Context) (clock : ℕ → ℕ) where
  pub settle_error :
      (id : String) (op : Operation) (v : Verdict) (w : World S) (e : Error)
      → (settle svc ctx clock id op v w).0 ≡ err e
      → is_unresolved e ≡ true
  unfolding settle settle_external_effect ◌>>=◌
  settle_error id op v w e h = ground arith

  pub settle_receipt :
      (id : String) (op : Operation) (v : Verdict) (w : World S) (t : Receipt)
      → (settle svc ctx clock id op v w).0 ≡ ok t
      → (view (settle svc ctx clock id op v w).1.ledger op.id ≡ some (settled op v (clock 2)))
        × (t ≡ receipt_from_operation id (settled op v (clock 2)) (clock 3))
        × (v.invalid ≡ false)
  unfolding settle settle_external_effect transition ◌>>=◌
  settle_receipt id op v w t h =
      ground (arith, ledger.update_done (ctx 11) (settled op v (clock 2)) w.ledger)

  pub settle_unknown_error :
      (req : Request) (op : Operation) (w : World S) (e : Error)
      → (settle_unknown svc ctx clock req op w).0 ≡ err e
      → is_unresolved e ≡ true
  unfolding settle_unknown settle_external_effect ◌>>=◌
  settle_unknown_error req op w e h = ground arith

  pub settle_unknown_receipt :
      (req : Request) (op : Operation) (w : World S) (t : Receipt)
      → (settle_unknown svc ctx clock req op w).0 ≡ ok t
      → (view (settle_unknown svc ctx clock req op w).1.ledger op.id ≡ some (lost (clock 2) op))
        × (t ≡ receipt_from_operation req.id (lost (clock 2) op) (clock 3))
  unfolding settle_unknown settle_external_effect transition ◌>>=◌
  settle_unknown_receipt req op w t h =
      ground (arith, ledger.update_done (ctx 11) (lost (clock 2) op) w.ledger)
