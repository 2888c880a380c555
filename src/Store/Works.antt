-- ===== src/Store/Works.antt =====
-- Recovery mode and work items (GetRecoveryContext to UpdateWorkContext of memory.go).
pub mod Versions
use engineering_platform.Prelude.{
  Bool, Context, Exec, String, absent, already_recovering, conflict, exists, fail_if, find,
  if◌then◌else◌, insert, modify, nat_eq, not, not_found, ok, string_eq, u64, ℕ, ◌!=◌, ◌+◌, ◌==◌,
  ◌>>=◌, ◌>>◌,
}
use engineering_platform.Core.{WorkItem, work_state_eq}
use engineering_platform.Recovery.{Manager, begin, complete, is_normal}
use engineering_platform.Store.{Memory, authorized}

unfoldable pub get_recovery : Context → Exec Memory Manager
get_recovery ctx = do authorized ctx; λ m. (ok m.recovery_state, m)

unfoldable pub begin_recovery : Context → ℕ → Exec Memory Manager
begin_recovery ctx expected_epoch = do
  authorized ctx
  λ m. fail_if (m.recovery_state.epoch != expected_epoch) conflict m
  λ m. fail_if (not (is_normal m.recovery_state.mode)) already_recovering m
  modify λ m. record m { recovery_state = begin m.recovery_state }
  λ m. (ok m.recovery_state, m)

-- `m.recoveryState.Complete`, on the manager inside the store.
on_manager : {A : Type 0} → Exec Manager A → Exec Memory A
on_manager f m = let (r, s) = f m.recovery_state in (r, record m { recovery_state = s })

unfoldable pub complete_recovery : Context → ℕ → Bool → Exec Memory Manager
unfolding on_manager
complete_recovery ctx epoch reconciled = do
  authorized ctx
  λ m. fail_if (m.recovery_state.epoch != epoch) conflict m
  on_manager (complete epoch reconciled)
  λ m. (ok m.recovery_state, m)

-- if item.Version == 0 { item.Version = 1 }
abbrev pub initial_version : WorkItem → WorkItem
initial_version item = record item { version = if item.version == 0 then 1 else item.version }

unfoldable pub create_work : Context → WorkItem → Exec Memory Unit
create_work ctx item = do
  authorized ctx
  absent (λ m. m.works item.id) exists
  modify λ m. record m { works = insert item.id (initial_version item) m.works }

unfoldable pub get_work : Context → String → Exec Memory WorkItem
get_work ctx id = do authorized ctx; find (λ m. m.works id) not_found

unfoldable pub update_work : Context → String → ℕ → WorkItem → Exec Memory Unit
update_work ctx id expected_version item = do
  authorized ctx
  current ← find (λ m. m.works id) not_found
  fail_if (current.version != expected_version) conflict
  modify λ m. record m {
    works = insert id (record item { version = u64 (expected_version + 1) }) m.works;
  }
