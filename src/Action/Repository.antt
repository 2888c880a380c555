-- ===== src/Action/Repository.antt =====
-- The action ledger: the `Repository` interface of service.go, and `MemoryRepository`, whose methods
-- run under its lock and so are single steps.
pub mod Laws
use engineering_platform.Prelude.{
  Context, Exec, Map, Option, String, absent, ctx_err, empty, fail_if, false, find, insert,
  invalid_transition, is_ok, lift, modify, nat_eq, not, operation_absent, operation_exists, some,
  string_eq, true, ◌>>=◌, ◌>>◌, ◌≡◌,
}
use engineering_platform.Action.{Operation, risk_eq, same_reservation, state_eq, transition}

pub record Repository (S : Type 0) : Type 0 where
  pub create : Context → Operation → Exec S Unit
  pub get : Context → String → Exec S Operation
  pub get_by_key : Context → String → Exec S Operation
  pub update : Context → Operation → Exec S Unit

-- What the service relies on of a ledger, where `view` says which operation it holds under an
-- identifier: a failing write changes nothing, and a successful one is what is read afterwards.
pub record IsLedger {S : Type 0} (r : Repository S) (view : S → String → Option Operation)
    : Type 0 where
  pub create_failed :
      (ctx : Context) (op : Operation) (s : S)
      → is_ok (r.create ctx op s).0 ≡ false
      → (r.create ctx op s).1 ≡ s
  pub update_done :
      (ctx : Context) (op : Operation) (s : S)
      → is_ok (r.update ctx op s).0 ≡ true
      → view (r.update ctx op s).1 op.id ≡ some op
  pub update_failed :
      (ctx : Context) (op : Operation) (s : S)
      → is_ok (r.update ctx op s).0 ≡ false
      → (r.update ctx op s).1 ≡ s
  pub get_still : (ctx : Context) (id : String) (s : S) → (r.get ctx id s).1 ≡ s
  pub get_by_key_still : (ctx : Context) (key : String) (s : S) → (r.get_by_key ctx key s).1 ≡ s

pub record MemoryRepository : Type 0 where
  pub items : Map String Operation
  pub idempotency : Map String String

unfoldable pub new_memory_repository : MemoryRepository
new_memory_repository = record { items = empty; idempotency = empty }

unfoldable pub create_context : Context → Operation → Exec MemoryRepository Unit
create_context ctx op = do
  ctx_err ctx 0
  ctx_err ctx 1
  absent (λ r. r.items op.id) operation_exists
  absent (λ r. r.idempotency op.idempotency_key) operation_exists
  modify λ r. record r {
    items = insert op.id op r.items;
    idempotency = insert op.idempotency_key op.id r.idempotency;
  }

unfoldable pub get_context : Context → String → Exec MemoryRepository Operation
get_context ctx id = do ctx_err ctx 0; ctx_err ctx 1; find (λ r. r.items id) operation_absent

unfoldable pub get_by_idempotency_key_context : Context → String → Exec MemoryRepository Operation
get_by_idempotency_key_context ctx key = do
  ctx_err ctx 0
  ctx_err ctx 1
  id ← find (λ r. r.idempotency key) operation_absent
  find (λ r. r.items id) operation_absent

unfoldable pub update_context : Context → Operation → Exec MemoryRepository Unit
update_context ctx op = do
  ctx_err ctx 0
  ctx_err ctx 1
  original ← find (λ r. r.items op.id) operation_absent
  fail_if (not (same_reservation original op)) invalid_transition
  lift (transition op.state op.updated_at original).0
  modify λ r. record r { items = insert op.id op r.items }

abbrev pub memory_repository : Repository MemoryRepository
memory_repository = record {
  create = create_context;
  get = get_context;
  get_by_key = get_by_idempotency_key_context;
  update = update_context;
}
