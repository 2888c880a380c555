-- ===== src/Outbox/Batch/Totals.antt =====
-- What the summary of a batch adds up to (`DispatchBatch` of internal/outbox/dispatcher.go).
use engineering_platform.Prelude.{
  Context, Error, Exec, List, Option, Result, String, [], arith, continue, Bool, ltb, ap, false,
  message, still-ctx_err, if◌then◌else◌, ◌||◌, ◌==◌, string_eq, nat_eq, ctx_err, err, is_ok, length,
  none, ok, refl, some, true, ℕ, ◌+◌, ◌>>=◌, ◌∙◌, ◌∷◌, ◌≡◌, ◌≤◌,
}
use engineering_platform.Outbox.{Message, State, dead_letter, dispatched, leased, pending, resolve}
use engineering_platform.Outbox.Batch.{
  Dispatcher, Progress, Registration, Settings, Summary, after_dispatch, after_mark,
  dispatch_message, dispatch_messages, dispatch_to, lease_of, on_ledger, find_handler, handle_by,
  no_summary, dispatch_claimed, dispatch_batch, bad_settings, settings_of, check_handlers,
}

abbrev pub total : Summary → ℕ
total s = s.dispatched + s.retried + s.dead_lettered + s.deferred

-- A success has settled `n` more messages, a failure no more than that.
Counted : {S : Type 0} → ℕ → Progress S → Result (Unit {0}) → Progress S → Type 0
Counted n p r q =
    (q.summary.claimed ≡ p.summary.claimed)
    × (is_ok r ≡ true → total q.summary ≡ total p.summary + n)
    × (total q.summary ≤ total p.summary + n)

-- What a batch says of itself.
abbrev Fine : {S : Type 0} → Result (Unit {0}) → Progress S → Type 0
Fine r p =
    (is_ok r ≡ true → total p.summary ≡ p.summary.claimed) × (total p.summary ≤ p.summary.claimed)

module _ {S : Type 0} where
  after_mark-Counted :
      (r : Result (Unit {0})) (p : Progress S) → Counted 1 p (after_mark r p).0 (after_mark r p).1
  unfolding Counted
  after_mark-Counted (ok u) p = ground arith
  after_mark-Counted (err e) p = ground arith

  after_dispatch-Counted :
      (r : Result State) (p : Progress S)
      → Counted 1 p (after_dispatch r p).0 (after_dispatch r p).1
  unfolding Counted
  after_dispatch-Counted (ok dispatched) p = ground arith
  after_dispatch-Counted (ok pending) p = ground arith
  after_dispatch-Counted (ok dead_letter) p = ground arith
  after_dispatch-Counted (ok leased) p = ground arith
  after_dispatch-Counted (err e) p = ground arith

  continue-Counted :
      (m n k : ℕ) (p : Progress S) (r : Result (Unit {0})) (q : Progress S)
      (f : Unit {0} → Exec (Progress S) Unit)
      → k ≡ m + n
      → Counted m p r q
      → Counted n q (f tt q).0 (f tt q).1
      → Counted k p (continue r f q).0 (continue r f q).1
  unfolding Counted
  continue-Counted m n k p (ok u) q f e (a, b, c) (x, y, z) =
      let b' = b refl in (x ∙ a, λ h. let y' = y h in omega arith, omega arith)
  continue-Counted m n k p (err x) q f e (a, b, c) h = (a, λ z. ground (arith, z), omega arith)

  nothing-Counted : (p : Progress S) → Counted 0 p (ok tt) p
  unfolding Counted
  nothing-Counted p = ground arith

  ctx_err-Counted :
      (ctx : Context) (k : ℕ) (p : Progress S) → Counted 0 p (ctx_err ctx k p).0 (ctx_err ctx k p).1
  unfolding Counted
  ctx_err-Counted ctx k p = ground arith

  on_ledger-Counted :
      {A : Type 0} (f : Exec S A) (k : Result A → Exec (Progress S) Unit)
      → ((r : Result A) (q : Progress S) → Counted 1 q (k r q).0 (k r q).1)
      → (p : Progress S) → Counted 1 p (on_ledger f k p).0 (on_ledger f k p).1
  unfolding Counted
  on_ledger-Counted f k h p = h (f p.ledger).0 (record p { ledger = (f p.ledger).1 })

  module _ (text : Error → String) (d : Dispatcher S) (s : Settings) where
    dispatch_to-Counted :
        (m : Message) (o : Option Registration) (p : Progress S)
        → Counted 1 p (dispatch_to text d s m o p).0 (dispatch_to text d s m o p).1
    unfolding dispatch_to resolve
    dispatch_to-Counted m none p =
        on_ledger-Counted (d.repository.mark_dead_letter (lease_of m) "outbox topic has no handler")
          after_mark after_mark-Counted p
    dispatch_to-Counted m (some entry) p =
        on_ledger-Counted
          (d.repository.dispatch s.timeout (lease_of m) entry.risk_class
            (resolve text s.delay s.max_delay s.max_attempts (handle_by entry.handler) m.topic))
          after_dispatch after_dispatch-Counted p

    dispatch_messages-Counted :
        (ctx : Context) (k : ℕ) (ms : List Message) (p : Progress S)
        → Counted
            (length ms)
            p
            (dispatch_messages text d s ctx k ms p).0
            (dispatch_messages text d s ctx k ms p).1
    unfolding dispatch_messages dispatch_message ◌>>=◌
    dispatch_messages-Counted ctx k [] p = nothing-Counted p
    dispatch_messages-Counted ctx k (m ∷ ms) p =
        let f = λ (u : Unit {0}). dispatch_messages text d s ctx (k + 1) ms in
        let o = find_handler d.handlers m.topic in
        let step = λ (q : Progress S).
          continue-Counted 1 (length ms) (1 + length ms) q (dispatch_to text d s m o q).0
            (dispatch_to text d s m o q).1 f refl (dispatch_to-Counted m o q)
            (dispatch_messages-Counted ctx (k + 1) ms (dispatch_to text d s m o q).1) in
        continue-Counted 0 (1 + length ms) (length (m ∷ ms)) p (ctx_err ctx k p).0
          (ctx_err ctx k p).1 (λ u. dispatch_message text d s m >>= f) (omega arith)
          (ctx_err-Counted ctx k p) (step (ctx_err ctx k p).1)

    dispatch_claimed-Fine :
        (ctx : Context) (r : Result (List Message)) (p : Progress S)
        → p.summary ≡ no_summary
        → Fine (dispatch_claimed text d s ctx r p).0 (dispatch_claimed text d s ctx r p).1
    unfolding dispatch_claimed Counted ◌>>=◌
    dispatch_claimed-Fine ctx (err e) p q = rw q ((λ h. refl), omega arith)
    dispatch_claimed-Fine ctx (ok ms) p q =
        let (a, b, c) =
          dispatch_messages-Counted ctx 1 ms
            (record p { summary = record no_summary { claimed = length ms } }) in
        (λ h. let b' = b h in omega arith, omega arith)

  Fine-idle : (r : Result (Unit {0})) (p : Progress S) → p.summary ≡ no_summary → Fine r p
  Fine-idle r p q = rw q ((λ h. refl), omega arith)

  Fine-if :
      (b : Bool) (f g : Exec (Progress S) Unit) (p : Progress S)
      → Fine (f p).0 (f p).1
      → Fine (g p).0 (g p).1
      → Fine ((if b then f else g) p).0 ((if b then f else g) p).1
  Fine-if true f g p x y = x
  Fine-if false f g p x y = y

  Fine-continue :
      {A : Type 0} (r : Result A) (f : Exec (Progress S) Unit) (p q : Progress S)
      → q ≡ p
      → p.summary ≡ no_summary
      → Fine (f p).0 (f p).1
      → Fine (continue r (λ _. f) q).0 (continue r (λ _. f) q).1
  Fine-continue (ok a) f p q e i x = rw e x
  Fine-continue (err e) f p q c i x = Fine-idle (err e) q (ap (λ (z : Progress S). z.summary) c ∙ i)

  -- A batch that begins with an empty summary and succeeds has settled each claimed message once: as
  -- dispatched, retried, dead-lettered or deferred. One that fails reports no more settled messages
  -- than claimed ones.
  pub dispatch_batch-total :
      (text : Error → String) (d : Dispatcher S) (ctx : Context) (worker_id : String) (limit : ℕ)
      (p : Progress S)
      → p.summary ≡ no_summary
      → let (r, q) = dispatch_batch text d ctx worker_id limit p in
        (is_ok r ≡ true → total q.summary ≡ q.summary.claimed)
        × (total q.summary ≤ q.summary.claimed)
  unfolding dispatch_batch dispatch_claimed ◌>>=◌
  dispatch_batch-total text d ctx worker_id limit p i =
      Fine-if (worker_id == "" || limit == 0 || ltb 1000 limit) _ _ p
        (Fine-idle (err (message "worker and claim limit in [1,1000] are required")) p i)
        (Fine-if (bad_settings (settings_of d)) _ _ p
          (Fine-idle (err (message "invalid outbox lease, timeout or retry bounds")) p i)
          (Fine-continue (check_handlers d.handlers) _ p p refl i (
            Fine-continue (ctx_err ctx 0 p).0 _ p (ctx_err ctx 0 p).1 (still-ctx_err ctx 0 p) i (
              dispatch_claimed-Fine text d (settings_of d) ctx
                (d.repository.claim worker_id limit (settings_of d).lease p.ledger).0
                (record p {
                  ledger = (d.repository.claim worker_id limit (settings_of d).lease p.ledger).1;
                })
                i))))
