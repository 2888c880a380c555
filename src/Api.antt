-- ===== src/Api.antt =====
-- internal/api: the handlers of the HTTP server over the store (server.go and the *_context.go files
-- beside it). A request is its decoded body and its path values. Between any two calls of the store
-- other requests are served, so each call is made in the store that `traffic` has left.
mod Examples
mod Works
mod Runs
mod Deliveries
mod Reviews
mod Recoveries
pub mod Actions
pub mod Traffic
pub mod Requests
pub mod Closing
use engineering_platform.Prelude.{
  Bool, Context, Error, Exec, Result, Sentinel, String, already_recovering, commit_outcome_unknown,
  conflict, ctx_err, denied, err, errors_is, exists, external_effect_unresolved, false, http,
  idempotency_conflict, if◌then◌else◌, later, nat_eq, not_found, ok, operation_absent,
  reconciliation_required, recovery_mode, recovery_stale_epoch, run_stale_epoch,
  session_runtime_not_owner, session_sequence, session_stale_epoch, string_eq, true, ℕ, ◌==◌, ◌>>=◌,
  ◌||◌,
}
use engineering_platform.Store.{Memory}

-- What a request meets: what others do to the store before its n-th call, the context of that call,
-- and the server's clock.
pub record Net : Type 0 where
  pub traffic : ℕ → Memory → Memory
  pub context : ℕ → Context
  pub now : ℕ

-- An answer that is no error.
pub record Reply (A : Type 0) : Type 0 where
  pub status : ℕ
  pub body : A

-- The fixed texts of `writePublicError`.
abbrev public_text : ℕ → String
public_text status =
    if status == 400
    then "invalid request"
    else if status == 403
    then "operation forbidden"
    else if status == 404
    then "resource not found"
    else if status == 409
    then "conflict with current authority or version"
    else if status == 422
    then "request rejected by current policy or contract"
    else if status == 503
    then "service temporarily unavailable"
    else "internal operation failed"

abbrev pub public_error : ℕ → Error
public_error status = http status (public_text status)

abbrev pub is_sentinel : Sentinel → Sentinel → Bool
is_sentinel not_found not_found = true
is_sentinel exists exists = true
is_sentinel conflict conflict = true
is_sentinel commit_outcome_unknown commit_outcome_unknown = true
is_sentinel run_stale_epoch run_stale_epoch = true
is_sentinel session_stale_epoch session_stale_epoch = true
is_sentinel session_sequence session_sequence = true
is_sentinel session_runtime_not_owner session_runtime_not_owner = true
is_sentinel recovery_stale_epoch recovery_stale_epoch = true
is_sentinel already_recovering already_recovering = true
is_sentinel reconciliation_required reconciliation_required = true
is_sentinel recovery_mode recovery_mode = true
is_sentinel external_effect_unresolved external_effect_unresolved = true
is_sentinel denied denied = true
is_sentinel idempotency_conflict idempotency_conflict = true
is_sentinel operation_absent operation_absent = true
is_sentinel _ _ = false

abbrev pub is_error : Sentinel → Error → Bool
is_error s e = errors_is (is_sentinel s) e

-- `writeCommitOutcomeUnknown`.
abbrev pub commit_unknown : Error
commit_unknown = http 503 "commit_outcome_unknown"

-- `writeStoreError`.
unfoldable pub store_error : Error → Error
store_error e =
    if is_error commit_outcome_unknown e
    then commit_unknown
    else if is_error not_found e
    then public_error 404
    else public_error 500

-- `writeMutationError`.
unfoldable pub mutation_error : Error → Error
mutation_error e =
    if is_error commit_outcome_unknown e
    then commit_unknown
    else if is_error not_found e
    then public_error 404
    else if is_error exists e
        || is_error conflict e
        || is_error run_stale_epoch e
        || is_error session_stale_epoch e
        || is_error session_sequence e
        || is_error session_runtime_not_owner e
    then public_error 409
    else public_error 422

-- `writeCommitAwareInternalError`.
unfoldable pub commit_aware_error : Error → Error
commit_aware_error e =
    if is_error commit_outcome_unknown e
    then commit_unknown
    else http 500 "internal Core authority operation failed"

-- What the handlers that create a record answer with where the store refuses it.
unfoldable pub create_error : Error → Error
unfolding commit_aware_error
create_error e = if is_error exists e then public_error 409 else commit_aware_error e

-- The same where a conflict is a refusal too.
unfoldable pub freeze_error : Error → Error
unfolding commit_aware_error
freeze_error e =
    if is_error exists e || is_error conflict e then public_error 409 else commit_aware_error e

-- if cond { writeError(w, status, text); return }
unfoldable pub refuse_if : Bool → ℕ → String → Exec Memory Unit
refuse_if true status text m = (err (http status text), m)
refuse_if false status text m = (ok tt, m)

-- A value computed without the store, its error answered with `tag`.
unfoldable pub compute : {A : Type 0} → (Error → Error) → Result A → Exec Memory A
compute tag (ok a) m = (ok a, m)
compute tag (err e) m = (err (tag e), m)

unfoldable pub answer : {A : Type 0} → ℕ → A → Exec Memory (Reply A)
answer status body m = (ok (record { status = status; body = body }), m)

abbrev pub tagged : {A : Type 0} → (Error → Error) → Result A → Result A
tagged tag (ok a) = ok a
tagged tag (err e) = err (tag e)

-- The n-th call of the store, by the method `...ForRequest`, which looks at the context first. Its
-- error is answered with `tag`.
unfoldable pub call :
    {A : Type 0} → Net → ℕ → (Error → Error) → (Context → Exec Memory A) → Exec Memory A
call net n tag f m =
    let (r, s) =
      (ctx_err (net.context n) 0 >>= λ _. f (later 1 (net.context n))) (net.traffic n m) in
    (tagged tag r, s)
