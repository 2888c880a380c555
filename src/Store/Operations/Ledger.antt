-- ===== src/Store/Operations/Ledger.antt =====
-- The store is a ledger for the action service, as `MemoryRepository` is.
use engineering_platform.Prelude.{
  ==_refl, Context, String, arith, false, insert, is_ok, nat_eq, some, string_eq, true, ◌>>=◌, ◌≡◌,
}
use engineering_platform.Action.{Operation, risk_eq, state_eq}
use engineering_platform.Action.Repository.{IsLedger}
use engineering_platform.Store.{Memory}
use engineering_platform.Store.Operations.{
  create_operation, get_operation, get_operation_by_key, store_repository, update_operation,
}

module _ (ctx : Context) where
  create_operation_failed :
      (op : Operation) (m : Memory)
      → is_ok (create_operation ctx op m).0 ≡ false
      → (create_operation ctx op m).1 ≡ m
  unfolding create_operation ◌>>=◌
  create_operation_failed op m h = ground arith

  update_operation_failed :
      (op : Operation) (m : Memory)
      → is_ok (update_operation ctx op m).0 ≡ false
      → (update_operation ctx op m).1 ≡ m
  unfolding update_operation ◌>>=◌
  update_operation_failed op m h = ground arith

  update_operation_done :
      (op : Operation) (m : Memory)
      → is_ok (update_operation ctx op m).0 ≡ true
      → (update_operation ctx op m).1 ≡ record m { operations = insert op.id op m.operations }
  unfolding update_operation ◌>>=◌
  update_operation_done op m h = ground arith

  update_operation-lookup :
      (op : Operation) (m : Memory)
      → is_ok (update_operation ctx op m).0 ≡ true
      → (update_operation ctx op m).1.operations op.id ≡ some op
  update_operation-lookup op m h = rw (update_operation_done op m h, ==_refl op.id)

  get_operation_still : (id : String) (m : Memory) → (get_operation ctx id m).1 ≡ m
  unfolding get_operation ◌>>=◌
  get_operation_still id m = ground arith

  pub get_operation_by_key_still :
      (key : String) (m : Memory) → (get_operation_by_key ctx key m).1 ≡ m
  unfolding get_operation_by_key ◌>>=◌
  get_operation_by_key_still key m = ground arith

pub store_repository-IsLedger : IsLedger store_repository (λ m. m.operations)
store_repository-IsLedger = record {
  create_failed = create_operation_failed;
  update_done = update_operation-lookup;
  update_failed = update_operation_failed;
  get_still = get_operation_still;
  get_by_key_still = get_operation_by_key_still;
}
