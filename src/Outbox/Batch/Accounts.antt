-- ===== src/Outbox/Batch/Accounts.antt =====
-- The summary of a batch accounts for each claimed message (`DispatchBatch` of
-- internal/outbox/dispatcher.go).
use engineering_platform.Prelude.{
  length, message, Bool, Context, Error, Exec, List, Option, Post, Result, String, Triple,
  Triple-bind, Triple-if, Triple-raise, Triple-still, [], arith, err, errors_is, false,
  if◌then◌else◌, is_ok, ltb, map, nat_eq, none, ok, raise, refl, some, still-ctx_err, still-lift,
  string_eq, true, ℕ, ◌+◌, ◌==◌, ◌>>=◌, ◌||◌, ◌∷◌, ◌≡◌,
}
use engineering_platform.Outbox.{
  Message, State, dead_letter, dispatched, is_outcome_unknown, leased, pending, resolve,
}
use engineering_platform.Outbox.Batch.{
  check_handlers, no_summary, handle_by, find_handler, bad_settings, is_denial, is_lease_lost,
  Dispatcher, Lease, Progress, Registration, Settings, after_dispatch, after_mark, dispatch_batch,
  dispatch_claimed, dispatch_message, dispatch_messages, dispatch_to, lease_of, no_summary,
  one_deferred, settings_of,
}
use engineering_platform.Outbox.Batch.Settled.{
  unbegun, Account, Account-noted, Failed, Watched, claimed_in, marked, noted, settled, unwatched,
  watched,
}
use engineering_platform.Outbox.Batch.Totals.{dispatch_batch-total, total}

module _ {S : Type 0} where
  after_mark-Account :
      (m : Message) (rest : List Lease) (r : Result (Unit {0})) (s : S) (p : Progress (Watched S))
      → Account (lease_of m ∷ rest) p
      → let q = record p { ledger = noted p.ledger s (lease_of m) (marked r) } in
        Post (λ _. Account rest) Failed (after_mark r q).0 (after_mark r q).1
  after_mark-Account m rest (ok u) s p h =
      Account-noted m rest p s (marked (ok u)) _ h refl (omega arith) (omega arith) refl
        (omega arith)
  after_mark-Account m rest (err e) s p h = split (errors_is is_lease_lost e) refl
    where
      split :
          (b : Bool)
          → errors_is is_lease_lost e ≡ b
          → let q = record p { ledger = noted p.ledger s (lease_of m) (marked (err e)) } in
            let f : Exec (Progress (Watched S)) Unit = if b then one_deferred else raise e in
            Post (λ _. Account rest) Failed (f q).0 (f q).1
      split true c =
          Account-noted m rest p s (marked (err e)) _ h refl (omega arith) (omega arith)
            (omega arith) (rw c refl)
      split false c = (
        rest,
        Account-noted m rest p s (marked (err e)) _ h refl (omega arith) (omega arith) (omega arith)
            (rw c (omega arith)),
      )

  after_dispatch-Account :
      (m : Message) (rest : List Lease) (r : Result State) (s : S) (p : Progress (Watched S))
      → Account (lease_of m ∷ rest) p
      → let q = record p { ledger = noted p.ledger s (lease_of m) (settled r) } in
        Post (λ _. Account rest) Failed (after_dispatch r q).0 (after_dispatch r q).1
  after_dispatch-Account m rest (ok dispatched) s p h =
      Account-noted m rest p s (settled (ok dispatched)) _ h refl refl (omega arith) (omega arith)
        (omega arith)
  after_dispatch-Account m rest (ok pending) s p h =
      Account-noted m rest p s (settled (ok pending)) _ h refl (omega arith) refl (omega arith)
        (omega arith)
  after_dispatch-Account m rest (ok dead_letter) s p h =
      Account-noted m rest p s (settled (ok dead_letter)) _ h refl (omega arith) (omega arith) refl
        (omega arith)
  after_dispatch-Account m rest (ok leased) s p h = (
    rest,
    Account-noted m rest p s (settled (ok leased)) _ h refl (omega arith) (omega arith)
        (omega arith) (omega arith),
  )
  after_dispatch-Account m rest (err e) s p h =
      split (is_outcome_unknown e) (errors_is is_denial e) refl refl
    where
      split :
          (a b : Bool)
          → is_outcome_unknown e ≡ a
          → errors_is is_denial e ≡ b
          → let q = record p { ledger = noted p.ledger s (lease_of m) (settled (err e)) } in
            let f : Exec (Progress (Watched S)) Unit =
              if a then raise e else if b then one_deferred else raise e in
            Post (λ _. Account rest) Failed (f q).0 (f q).1
      split true b c d = (
        rest,
        Account-noted m rest p s (settled (err e)) _ h refl (omega arith) (omega arith)
            (omega arith) (rw c (omega arith)),
      )
      split false true c d =
          Account-noted m rest p s (settled (err e)) _ h refl (omega arith) (omega arith)
            (omega arith) (rw (c, d) refl)
      split false false c d = (
        rest,
        Account-noted m rest p s (settled (err e)) _ h refl (omega arith) (omega arith)
            (omega arith) (rw (c, d) (omega arith)),
      )

  module _ (text : Error → String) (d : Dispatcher S) where
    dispatch_to-Account :
        (set : Settings) (m : Message) (o : Option Registration) (rest : List Lease)
        → Triple
            (Account (lease_of m ∷ rest))
            (dispatch_to text (watched d) set m o)
            (λ _. Account rest)
            Failed
    unfolding resolve
    dispatch_to-Account set m none rest = record {
      at = λ p h.
          let (r, s) =
            d.repository.mark_dead_letter (lease_of m) "outbox topic has no handler"
              p.ledger.inner in
          after_mark-Account m rest r s p h;
    }
    dispatch_to-Account set m (some entry) rest = record {
      at = λ p h.
          let (r, s) =
            d.repository.dispatch set.timeout (lease_of m) entry.risk_class
              (resolve text set.delay set.max_delay set.max_attempts (handle_by entry.handler)
                m.topic)
              p.ledger.inner in
          after_dispatch-Account m rest r s p h;
    }

    dispatch_messages-Account :
        (set : Settings) (ctx : Context) (n : ℕ) (ms : List Message)
        → Triple
            (Account (map lease_of ms))
            (dispatch_messages text (watched d) set ctx n ms)
            (λ _. Account [])
            Failed
    unfolding dispatch_messages dispatch_message
    dispatch_messages-Account set ctx n [] = record { at = λ p h. h }
    dispatch_messages-Account set ctx n (m ∷ ms) =
        Triple-bind (Triple-still (still-ctx_err ctx n) (λ e p h. (_, h))) λ _.
          Triple-bind
            (dispatch_to-Account set m (find_handler d.handlers m.topic) (map lease_of ms))
            λ _. dispatch_messages-Account set ctx (n + 1) ms

    abbrev Unbegun : S → Progress (Watched S) → Type 0
    Unbegun s p = p ≡ unbegun s

    Unbegun-Account : (s : S) (p : Progress (Watched S)) → Unbegun s p → Account [] p
    Unbegun-Account s p e = rw e (record {
      claimed = refl;
      tally = record { dispatched = refl; retried = refl; dead_lettered = refl; deferred = refl };
      order = refl;
    })

    Unbegun-Failed : (s : S) (e : Error) (p : Progress (Watched S)) → Unbegun s p → Failed e p
    Unbegun-Failed s e p h = ([], Unbegun-Account s p h)

    dispatch_claimed-Account :
        (set : Settings) (ctx : Context) (r : Result (List Message)) (s : S)
        → let p : Progress (Watched S) = record (unbegun s) {
          ledger = record (unwatched s) { messages = claimed_in r };
        } in
          Post
            (λ _. Account [])
            Failed
            (dispatch_claimed text (watched d) set ctx r p).0
            (dispatch_claimed text (watched d) set ctx r p).1
    unfolding dispatch_claimed ◌>>=◌
    dispatch_claimed-Account set ctx (err e) s = Unbegun-Failed s e _ refl
    dispatch_claimed-Account set ctx (ok ms) s =
        let p : Progress (Watched S) = record {
          summary = record no_summary { claimed = length ms };
          ledger = record (unwatched s) { messages = ms };
        } in
        (dispatch_messages-Account set ctx 1 ms).at p (record {
          claimed = refl;
          tally = record {
            dispatched = refl;
            retried = refl;
            dead_lettered = refl;
            deferred = refl;
          };
          order = refl;
        })

    dispatch_batch-Triple :
        (ctx : Context) (worker_id : String) (limit : ℕ) (s : S)
        → Triple
            (Unbegun s)
            (dispatch_batch text (watched d) ctx worker_id limit)
            (λ _. Account [])
            Failed
    unfolding dispatch_batch
    dispatch_batch-Triple ctx worker_id limit s =
        let fail = Unbegun-Failed s in
        Triple-if (worker_id == "" || limit == 0 || ltb 1000 limit)
          (Triple-raise (message "worker and claim limit in [1,1000] are required")
            (fail (message "")))
          (Triple-if (bad_settings (settings_of (watched d)))
            (Triple-raise (message "invalid outbox lease, timeout or retry bounds")
              (fail (message "")))
            (Triple-bind (Triple-still (still-lift (check_handlers d.handlers)) fail) λ _.
              Triple-bind (Triple-still (still-ctx_err ctx 0) fail) λ _. record {
                at = λ p h. rw h (
                    let (r, s') = d.repository.claim worker_id limit (settings_of d).lease s in
                    dispatch_claimed-Account (settings_of d) ctx r s');
              }))

  told :
      (r : Result (Unit {0})) (p : Progress (Watched S))
      → Post (λ _. Account []) Failed r p
      → (rest : List Lease) × Account rest p × (is_ok r ≡ true → rest ≡ [])
  told (ok u) p h = ([], h, λ _. refl)
  told (err e) p (rest, h) = (rest, h, λ i. ground (arith, i))

  -- A batch over any repository, whose answers are noted, reports as claimed the messages that it was
  -- given, and as dispatched, retried, dead-lettered and deferred the numbers of the answers of these
  -- kinds. The messages that the repository was asked to settle are the first of those claimed, each
  -- once and in their order. If the batch succeeds, they are all of them, and the four counters add
  -- up to their number.
  pub dispatch_batch-Account :
      (text : Error → String) (d : Dispatcher S) (ctx : Context) (worker_id : String) (limit : ℕ)
      (s : S)
      → let (r, q) = dispatch_batch text (watched d) ctx worker_id limit (unbegun s) in
        (rest : List Lease) × Account rest q
        × (is_ok r ≡ true → (rest ≡ []) × (total q.summary ≡ q.summary.claimed))
  dispatch_batch-Account text d ctx worker_id limit s =
      let (r, q) = dispatch_batch text (watched d) ctx worker_id limit (unbegun s) in
      let (rest, account, all) =
        told r q ((dispatch_batch-Triple text d ctx worker_id limit s).at (unbegun s) refl) in
      let (sum, bound) =
        dispatch_batch-total text (watched d) ctx worker_id limit (unbegun s) refl in
      (rest, account, λ i. (all i, sum i))
