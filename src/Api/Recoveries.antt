-- ===== src/Api/Recoveries.antt =====
-- The recovery of the platform (handleGetRecovery, handleBeginRecovery and handleCompleteRecovery of
-- internal/api/server.go).
use engineering_platform.Prelude.{
  Error, Exec, already_recovering, commit_outcome_unknown, conflict, http, if◌then◌else◌, nat_eq,
  reconciliation_required, recovery_stale_epoch, string_eq, true, ℕ, ◌==◌, ◌>>=◌, ◌>>◌, ◌||◌,
}
use engineering_platform.Recovery.{Manager}
use engineering_platform.Store.{Memory}
use engineering_platform.Store.Works.{begin_recovery, complete_recovery, get_recovery}
use engineering_platform.Api.{Net, Reply, answer, call, is_error, public_error, refuse_if}

abbrev unavailable : Error → Error
unavailable e = public_error 503

abbrev begin_error : Error → Error
begin_error e =
    if is_error commit_outcome_unknown e
    then http 503 "commit_outcome_unknown"
    else if is_error conflict e || is_error already_recovering e
    then public_error 409
    else public_error 500

abbrev complete_error : Error → Error
complete_error e =
    if is_error commit_outcome_unknown e
    then http 503 "commit_outcome_unknown"
    else if is_error conflict e || is_error recovery_stale_epoch e
    then public_error 409
    else if is_error reconciliation_required e
    then public_error 422
    else public_error 500

module _ (net : Net) where
  unfoldable pub handle_get_recovery : Exec Memory (Reply Manager)
  handle_get_recovery = do
    state ← call net 0 unavailable (λ ctx. get_recovery ctx)
    answer 200 state

  unfoldable pub handle_begin_recovery : ℕ → Exec Memory (Reply Manager)
  handle_begin_recovery expected_epoch = do
    state ← call net 0 begin_error (λ ctx. begin_recovery ctx expected_epoch)
    answer 200 state

  unfoldable pub handle_complete_recovery : ℕ → Exec Memory (Reply Manager)
  handle_complete_recovery epoch = do
    refuse_if (epoch == 0) 400 "recovery_epoch is required"
    state ← call net 0 complete_error (λ ctx. complete_recovery ctx epoch true)
    answer 200 state
