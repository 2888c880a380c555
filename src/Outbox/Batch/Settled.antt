-- ===== src/Outbox/Batch/Settled.antt =====
-- What a batch tells of the messages that it claimed (`DispatchBatch` of
-- internal/outbox/dispatcher.go), over a repository that notes its answers.
use engineering_platform.Prelude.{
  Bool, Error, List, Result, [], ap, arith, err, errors_is, false, if◌then◌else◌, length, map, not,
  ok, refl, sym, true, ℕ, ◌&&◌, ◌++◌, ◌+◌, ◌∙◌, ◌∷◌, ◌≡◌,
}
use engineering_platform.Outbox.{
  Message, State, dead_letter, dispatched, is_outcome_unknown, pending,
}
use engineering_platform.Outbox.Batch.{
  no_summary, is_denial, is_lease_lost, Dispatcher, Lease, Progress, Repository, Summary, lease_of,
}

-- What the repository answered about a message: from `dispatch`, or from `mark_dead_letter`.
pub data Answer : Type 0 where
  settled : Result State → Answer
  marked : Result (Unit {0}) → Answer

-- A repository's state beside the messages that it let be claimed and its answers, in their order.
pub record Watched (S : Type 0) : Type 0 where
  pub inner : S
  pub messages : List Message
  pub answers : List (Lease × Answer)

abbrev pub claimed_in : Result (List Message) → List Message
claimed_in (ok ms) = ms
claimed_in (err e) = []

module _ {S : Type 0} where
  abbrev pub unwatched : S → Watched S
  unwatched s = record { inner = s; messages = []; answers = [] }

  -- Nothing has been claimed or answered.
  abbrev pub unbegun : S → Progress (Watched S)
  unbegun s = record { summary = no_summary; ledger = unwatched s }

  abbrev pub noted : Watched S → S → Lease → Answer → Watched S
  noted w s lease a = record w { inner = s; answers = w.answers ++ (lease, a) ∷ [] }

  abbrev watch : Repository S → Repository (Watched S)
  watch r = record {
    claim = λ worker limit lease w.
        let (x, s) = r.claim worker limit lease w.inner in
        (x, record w { inner = s; messages = w.messages ++ claimed_in x });
    dispatch = λ timeout lease risk deliver w.
        let (x, s) = r.dispatch timeout lease risk deliver w.inner in
        (x, noted w s lease (settled x));
    mark_dead_letter = λ lease reason w.
        let (x, s) = r.mark_dead_letter lease reason w.inner in (x, noted w s lease (marked x));
  }

  -- The dispatcher over the repository that notes its answers.
  abbrev pub watched : Dispatcher S → Dispatcher (Watched S)
  watched d = record {
    repository = watch d.repository;
    handlers = d.handlers;
    lease_duration = d.lease_duration;
    handler_timeout = d.handler_timeout;
    retry_delay = d.retry_delay;
    max_retry_delay = d.max_retry_delay;
    max_attempts = d.max_attempts;
  }

-- The answers that each counter is about.
abbrev pub is_dispatched : Answer → Bool
is_dispatched (settled (ok dispatched)) = true
is_dispatched _ = false

abbrev pub is_retried : Answer → Bool
is_retried (settled (ok pending)) = true
is_retried _ = false

abbrev pub is_dead_lettered : Answer → Bool
is_dead_lettered (settled (ok dead_letter)) = true
is_dead_lettered (marked (ok u)) = true
is_dead_lettered _ = false

abbrev pub is_deferred : Answer → Bool
is_deferred (settled (err e)) = not (is_outcome_unknown e) && errors_is is_denial e
is_deferred (marked (err e)) = errors_is is_lease_lost e
is_deferred _ = false

abbrev pub count_of : (Answer → Bool) → List (Lease × Answer) → ℕ
count_of t [] = 0
count_of t ((lease, a) ∷ rest) = (if t a then 1 else 0) + count_of t rest

-- The counters of a summary are the numbers of such answers.
pub record Tally (s : Summary) (answers : List (Lease × Answer)) : Type 0 where
  pub dispatched : s.dispatched ≡ count_of is_dispatched answers
  pub retried : s.retried ≡ count_of is_retried answers
  pub dead_lettered : s.dead_lettered ≡ count_of is_dead_lettered answers
  pub deferred : s.deferred ≡ count_of is_deferred answers

abbrev pub leases : List (Lease × Answer) → List Lease
leases [] = []
leases ((lease, a) ∷ rest) = lease ∷ leases rest

count_of-snoc :
    (t : Answer → Bool) (l : Lease) (a : Answer) (answers : List (Lease × Answer))
    → count_of t (answers ++ (l, a) ∷ []) ≡ count_of t answers + (if t a then 1 else 0)
count_of-snoc t l a [] = omega arith
count_of-snoc t l a ((k, b) ∷ rest) = let h = count_of-snoc t l a rest in omega arith

leases-snoc :
    (l : Lease) (a : Answer) (rest : List Lease) (answers : List (Lease × Answer))
    → leases (answers ++ (l, a) ∷ []) ++ rest ≡ leases answers ++ l ∷ rest
leases-snoc l a rest [] = refl
leases-snoc l a rest ((k, b) ∷ answers) = ap (λ x. k ∷ x) (leases-snoc l a rest answers)

Tally-snoc :
    (s s' : Summary) (l : Lease) (a : Answer) (answers : List (Lease × Answer))
    → Tally s answers
    → s'.dispatched ≡ s.dispatched + (if is_dispatched a then 1 else 0)
    → s'.retried ≡ s.retried + (if is_retried a then 1 else 0)
    → s'.dead_lettered ≡ s.dead_lettered + (if is_dead_lettered a then 1 else 0)
    → s'.deferred ≡ s.deferred + (if is_deferred a then 1 else 0)
    → Tally s' (answers ++ (l, a) ∷ [])
Tally-snoc s s' l a answers t e f g h = record {
  dispatched =
      e
      ∙ ap (λ n. n + (if is_dispatched a then 1 else 0)) t.dispatched
      ∙ sym (count_of-snoc is_dispatched l a answers);
  retried =
      f
      ∙ ap (λ n. n + (if is_retried a then 1 else 0)) t.retried
      ∙ sym (count_of-snoc is_retried l a answers);
  dead_lettered =
      g
      ∙ ap (λ n. n + (if is_dead_lettered a then 1 else 0)) t.dead_lettered
      ∙ sym (count_of-snoc is_dead_lettered l a answers);
  deferred =
      h
      ∙ ap (λ n. n + (if is_deferred a then 1 else 0)) t.deferred
      ∙ sym (count_of-snoc is_deferred l a answers);
}

module _ {S : Type 0} where
  -- The claimed messages are those answered, in this order, and then the rest.
  pub record Account (rest : List Lease) (p : Progress (Watched S)) : Type 0 where
    pub claimed : p.summary.claimed ≡ length p.ledger.messages
    pub tally : Tally p.summary p.ledger.answers
    pub order : map lease_of p.ledger.messages ≡ leases p.ledger.answers ++ rest

  abbrev pub Failed : Error → Progress (Watched S) → Type 0
  Failed e p = (rest : List Lease) × Account rest p

  -- One more answer, with the counters that go with it.
  pub Account-noted :
      (m : Message) (rest : List Lease) (p : Progress (Watched S)) (s : S) (a : Answer)
      (c : Summary)
      → Account (lease_of m ∷ rest) p
      → c.claimed ≡ p.summary.claimed
      → c.dispatched ≡ p.summary.dispatched + (if is_dispatched a then 1 else 0)
      → c.retried ≡ p.summary.retried + (if is_retried a then 1 else 0)
      → c.dead_lettered ≡ p.summary.dead_lettered + (if is_dead_lettered a then 1 else 0)
      → c.deferred ≡ p.summary.deferred + (if is_deferred a then 1 else 0)
      → Account rest (record { summary = c; ledger = noted p.ledger s (lease_of m) a })
  Account-noted m rest p s a c h i e f g k = record {
    claimed = i ∙ h.claimed;
    tally = Tally-snoc p.summary c (lease_of m) a p.ledger.answers h.tally e f g k;
    order = h.order ∙ sym (leases-snoc (lease_of m) a rest p.ledger.answers);
  }
