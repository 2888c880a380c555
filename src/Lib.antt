-- ===== src/Lib.antt =====
-- The control plane of the engineering platform: what it promises about work, runs, external
-- actions and the evidence behind a delivery, modelled over its Go packages under internal/.
--
-- The parts. A work item (internal/core) goes from a draft to closed. Its task contract and
-- verification plan are frozen by digest; a run (internal/run) executes the task under an epoch, a
-- session (internal/session) says who may steer it, and recovery (internal/recovery) blocks
-- irreversible actions while the past is being reconciled. External actions (internal/action) are
-- reserved in a ledger, dispatched by a provider, and settled or reconciled. A delivery is verified
-- from evidence (internal/verification), reviewed (internal/review) and closed. The store
-- (internal/store/memory.go) holds all these records and checks them against each other. The server
-- (internal/api/server.go) answers requests by calls of the store, between which other requests are
-- served. The gateway (internal/gateway) guards external actions by what the store says. While a
-- model works on a run, an operator may steer or interrupt its turn (internal/codexexec), through
-- rows of the PostgreSQL store that end sealed in a transcript.
--
-- The files.
--   Prelude: tests, lists, maps as functions, keys that differ, text, errors, and methods.
--     `Exec S A` is a method on a state `S` that returns an `A` or an error; the state comes back
--     beside an error too. `Context` gives the answers of `ctx.Err()`, which the caller may change
--     at any call. `Triple` is a pre- and postcondition of a method.
--   Canonical: internal/canonical/bytes.go and the patterns of bounded identifiers.
--   Core: internal/core/model.go, work_state.go, context.go and continuation.go; Core.Transitions
--     and Core.References are about them.
--   Run, Session, Recovery: internal/run/model.go, internal/session/model.go,
--     internal/recovery/manager.go, one definition for each method.
--   Action: internal/action/model.go and ledger.go; Action.Repository is `MemoryRepository`,
--     Action.Service is `Service.Execute` and `Service.Reconcile` of service.go, where each `if`,
--     call of the ledger and call of the provider is a step in the order of the source, and nothing
--     else happens between them unless the ledger brings it.
--   Verification, Review: internal/verification/verification.go, internal/review/review.go.
--   Digests: the digests of internal/core, internal/session and internal/verification.
--   Store: internal/store/memory.go, a record with the fields of `Memory`, and its methods in
--     Store.Works, Store.Tasks, Store.Executions, Store.Operations and Store.Closures.
--     Store.Commands has every method that writes as one value; `Reachable` are the stores that
--     sequences of them lead to. Store.Trail is about what stands behind a closure, Store.Frozen
--     about what stands under a digest, Store.Pairs about runs and their sessions.
--     Store.Growth is about what is only added.
--   Gateway: internal/gateway/authority.go, over the store. Gateway.Interleaved is the ledger of an
--     execution in which others act on the store before each call.
--   Material, Routing: internal/material/readiness.go and internal/routing/router.go, which a new
--     task passes.
--   Audit: internal/audit/journal.go.
--   Api: internal/api/server.go. `Net` has what others do to the store before each call of a
--     request, the contexts and the clock; `call` is one call of the store with the error that it
--     is answered with. The handlers stand in Api.Works, Api.Runs, Api.Deliveries, Api.Reviews and
--     Api.Recoveries under the names of the source, and `serve` in Api.Requests has one case for
--     each of 26 routes. Api.Traffic has `Between`, the stores that lie ahead of one, with rules
--     for handlers; Api.Closing goes from a closure back to its evidence. Api.Actions has the two
--     handlers of external actions, over the service behind the gateway; they are no case of
--     `serve`.
--   Access: internal/access/policy.go and worker.go, the policy and what it keeps apart.
--   Workerqueue: internal/workerqueue/model.go, what a worker is assigned.
--   Debug: internal/debug/hypothesis.go.
--   Outbox: internal/outbox, the decision about one message (the callback of `DispatchBatch`),
--     `retryDelay` and `Classify`; Outbox.Batch is `DispatchBatch` over any repository.
--   ProcessScope: internal/processscope/proof.go.
--   Codex: the live controls of a Codex execution. Codex has the data of
--     internal/codexexec/control.go, Codex.Checks and Codex.Transcripts its validations and those
--     of continuation.go, Codex.Profiles the profile of an execution (model.go,
--     internal/provideridentity). Codex.Database has the rows of one run and `lockCodex`,
--     Codex.Controls the statements and Codex.Transactions the five transactions of
--     internal/store/postgres/codex_controls.go, as functions from the rows to an answer and what
--     is written; `end` is the commit, whose acknowledgement may be lost. Codex.Changes lists what
--     can be written, Codex.History the histories of the rows, with all that others do between.
--   The modules named Examples hold concrete values.
--
-- How they interact. The service reaches its ledger by the record `Repository`; `IsLedger` says
-- what it relies on. The store calls the checks of Verification, Review and Digests. The handlers
-- call the store, Material, Routing and Verification. What others do between the calls of a request
-- is the traffic of its `Net`. An execution of an action has either nobody else at its ledger, or
-- the ledger of Gateway.Interleaved.
--
-- Bounds. Numbers are natural; what Go computes in `uint64` is taken modulo 2 ^ 64, and the
-- theorems that need it say that an epoch or a version is below that bound. There is no fuel: every
-- loop of the source runs over a slice or counts up to a bound, and is structural recursion here.
--
-- What is a parameter. `Hashing` stands for SHA-256 over JSON. `Service` holds the provider, the
-- authorizer and the guards, which other packages implement; the provider sees the calls made
-- before. `Digesting` has the digests that the transactions on live controls take. The digest of
-- an audit event, the digest of a delivery's subject and the catalog of skills are functions that
-- the definitions take. Clock readings and contexts are functions from the point of the call; the
-- transactions take their clock readings as arguments.
--
-- What is not modelled. Locking, since a method of the store holds its lock from its second look at
-- the context on; copies of slices and maps, since values are not shared here; JSON; the PostgreSQL
-- store but for live controls and what they lock, where a database holds the rows of one run; of the
-- server, decoding, authentication, recovery proofs, steering, interruption, reads by digest, the
-- read of an action, workers and the operational routes; what others do between the calls of
-- `Service.Reconcile`, and within one guard of the gateway; processes, files and remote services. The texts of most errors are shortened.
pub mod Prelude
pub mod Canonical
pub mod Core
pub mod Run
pub mod Session
pub mod Recovery
pub mod Action
pub mod Verification
pub mod Review
pub mod Digests
pub mod Store
pub mod Outbox
pub mod Gateway
pub mod Audit
pub mod Material
pub mod Routing
pub mod Api
pub mod Access
pub mod Debug
pub mod Workerqueue
pub mod ProcessScope
pub mod Codex
