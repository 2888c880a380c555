-- ===== src/Recovery.antt =====
-- internal/recovery/manager.go and the facts of proof.go: the mode in which mutating external
-- actions are blocked until what happened before is reconciled.
mod Gate
mod Examples
use engineering_platform.Prelude.{
  Bool, Exec, Result, err, false, if◌then◌else◌, nat_eq, not, ok, reconciliation_required,
  recovery_mode, recovery_stale_epoch, sentinel, string_eq, true, u64, ℕ, ◌!=◌, ◌+◌,
}

pub data Mode : Type 0 where
  normal recovery_reconciliation : Mode

abbrev pub is_normal : Mode → Bool
is_normal normal = true
is_normal recovery_reconciliation = false

pub record Manager : Type 0 where
  pub epoch : ℕ
  pub mode : Mode

unfoldable pub new : Manager
new = record { epoch = 0; mode = normal }

unfoldable pub begin : Manager → Manager
begin m = record { epoch = u64 (m.epoch + 1); mode = recovery_reconciliation }

unfoldable pub check_epoch : Manager → ℕ → Result (Unit {0})
check_epoch m epoch = if epoch != m.epoch then err (sentinel recovery_stale_epoch) else ok tt

unfoldable pub authorize_irreversible : Manager → ℕ → Result (Unit {0})
unfolding check_epoch
authorize_irreversible m epoch = elim (check_epoch m epoch) [
  | err e ↦ err e
  | ok _ ↦ if is_normal m.mode then ok tt else err (sentinel recovery_mode)
]

unfoldable pub complete : ℕ → Bool → Exec Manager Unit
unfolding check_epoch
complete epoch reconciled m = elim (check_epoch m epoch) [
  | err e ↦ (err e, m)
  | ok _ ↦
      if not reconciled
      then (err (sentinel reconciliation_required), m)
      else (ok tt, record m { mode = normal })
]
