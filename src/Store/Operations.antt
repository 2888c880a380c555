-- ===== src/Store/Operations.antt =====
-- The action ledger inside the store (CreateContext to UpdateContext of memory.go).
pub mod Ledger
pub mod Reserved
use engineering_platform.Prelude.{
  Context, Exec, String, absent, fail_if, find, insert, invalid_transition, lift, modify, nat_eq,
  not, operation_absent, operation_exists, string_eq, ◌>>=◌, ◌>>◌,
}
use engineering_platform.Action.{Operation, risk_eq, same_reservation, state_eq, transition}
use engineering_platform.Action.Repository.{Repository}
use engineering_platform.Store.{Memory, authorized}

unfoldable pub create_operation : Context → Operation → Exec Memory Unit
create_operation ctx op = do
  authorized ctx
  absent (λ m. m.operations op.id) operation_exists
  absent (λ m. m.action_idempotency op.idempotency_key) operation_exists
  modify λ m. record m {
    operations = insert op.id op m.operations;
    action_idempotency = insert op.idempotency_key op.id m.action_idempotency;
  }

unfoldable pub get_operation : Context → String → Exec Memory Operation
get_operation ctx id = do authorized ctx; find (λ m. m.operations id) operation_absent

unfoldable pub get_operation_by_key : Context → String → Exec Memory Operation
get_operation_by_key ctx key = do
  authorized ctx
  id ← find (λ m. m.action_idempotency key) operation_absent
  find (λ m. m.operations id) operation_absent

unfoldable pub update_operation : Context → Operation → Exec Memory Unit
update_operation ctx op = do
  authorized ctx
  original ← find (λ m. m.operations op.id) operation_absent
  fail_if (not (same_reservation original op)) invalid_transition
  lift (transition op.state op.updated_at original).0
  modify λ m. record m { operations = insert op.id op m.operations }

abbrev pub store_repository : Repository Memory
store_repository = record {
  create = create_operation;
  get = get_operation;
  get_by_key = get_operation_by_key;
  update = update_operation;
}
