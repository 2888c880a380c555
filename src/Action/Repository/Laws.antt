-- ===== src/Action/Repository/Laws.antt =====
-- `MemoryRepository` of internal/action/service.go keeps its two maps in step, and its methods do
-- what a ledger promises.
use engineering_platform.Prelude.{
  ==_iff, ==_refl, Bool-cases, Context, Option-cases, Result, String, arith, err, false, inl, inr,
  insert, is_ok, nat_eq, none, ok, refl, some, string_eq, true, ◌>>=◌, ◌≡◌, ◌≢◌,
}
use engineering_platform.Action.{Operation, risk_eq, same_reservation, state_eq, transition}
use engineering_platform.Action.Repository.{
  IsLedger, MemoryRepository, create_context, get_by_idempotency_key_context, get_context,
  memory_repository, new_memory_repository, update_context,
}

pub record IsIndexed (r : MemoryRepository) : Type 0 where
  -- A row stands under its own identifier.
  pub row_id : (id : String) (op : Operation) → r.items id ≡ some op → op.id ≡ id
  -- The key of a row leads back to it.
  pub row_key :
      (id : String) (op : Operation)
      → r.items id ≡ some op
      → r.idempotency op.idempotency_key ≡ some id
  -- A key that is taken leads to a row.
  pub key_row : (key id : String) → r.idempotency key ≡ some id → r.items id ≢ none
  -- The row behind a key has that key.
  pub key_own :
      (key id : String) (op : Operation)
      → r.idempotency key ≡ some id
      → r.items id ≡ some op
      → op.idempotency_key ≡ key

abbrev pub inserted : Operation → MemoryRepository → MemoryRepository
inserted op r = record r {
  items = insert op.id op r.items;
  idempotency = insert op.idempotency_key op.id r.idempotency;
}

abbrev pub written : Operation → MemoryRepository → MemoryRepository
written op r = record r { items = insert op.id op r.items }

is_ok-unit : (r : Result (Unit {0})) → is_ok r ≡ true → r ≡ ok tt
is_ok-unit (ok u) h = refl
is_ok-unit (err e) h = cc

module _ (ctx : Context) (op : Operation) (r : MemoryRepository) where
  -- What a successful create did, and what it needed.
  create_context_done :
      is_ok (create_context ctx op r).0 ≡ true
      → ((create_context ctx op r).1 ≡ inserted op r)
        × (r.items op.id ≡ none)
        × (r.idempotency op.idempotency_key ≡ none)
  unfolding create_context ◌>>=◌
  create_context_done h = ground arith

  -- A create that fails changes nothing.
  pub create_context_failed :
      is_ok (create_context ctx op r).0 ≡ false → (create_context ctx op r).1 ≡ r
  unfolding create_context ◌>>=◌
  create_context_failed h = ground arith

  update_context_done :
      is_ok (update_context ctx op r).0 ≡ true
      → ((update_context ctx op r).1 ≡ written op r) × (r.items op.id ≢ none)
  unfolding update_context ◌>>=◌
  update_context_done h = ground arith

  -- An update that succeeds found a row with the same reservation, from whose state the ledger's
  -- state machine has a step to the new one.
  update_context_step :
      (o : Operation)
      → is_ok (update_context ctx op r).0 ≡ true
      → r.items op.id ≡ some o
      → (same_reservation o op ≡ true) × ((transition op.state op.updated_at o).0 ≡ ok tt)
  unfolding update_context ◌>>=◌
  update_context_step o h e = ground (arith, is_ok-unit (transition op.state op.updated_at o).0)

  pub update_context_failed :
      is_ok (update_context ctx op r).0 ≡ false → (update_context ctx op r).1 ≡ r
  unfolding update_context ◌>>=◌
  update_context_failed h = ground arith

inserted-IsIndexed :
    (op : Operation) (r : MemoryRepository)
    → IsIndexed r
    → r.items op.id ≡ none
    → r.idempotency op.idempotency_key ≡ none
    → IsIndexed (inserted op r)
inserted-IsIndexed op r h a b = record {
  row_id = λ id o e. ground (arith, h.row_id id o, ==_iff op.id id);
  row_key = λ id o e.
      ground (arith, h.row_key id o, ==_iff op.id id, ==_iff op.idempotency_key o.idempotency_key);
  key_row = λ key id e p.
      ground (arith, h.key_row key id, ==_iff op.id id, ==_iff op.idempotency_key key);
  key_own = λ key id o e p. ground (
    arith,
    h.key_own key id o,
    h.key_row key id,
    h.row_key id o,
    ==_iff op.id id,
    ==_iff op.idempotency_key key,
  );
}

same_reservation-key :
    (o op : Operation) → same_reservation o op ≡ true → o.idempotency_key ≡ op.idempotency_key
unfolding same_reservation
same_reservation-key o op h = ground (arith, ==_iff o.idempotency_key op.idempotency_key)

written-IsIndexed :
    (op o : Operation) (r : MemoryRepository)
    → IsIndexed r
    → r.items op.id ≡ some o
    → o.idempotency_key ≡ op.idempotency_key
    → IsIndexed (written op r)
written-IsIndexed op o r h a b = record {
  row_id = λ id p e. ground (arith, h.row_id id p, ==_iff op.id id);
  row_key = λ id p e. ground (arith, h.row_key id p, h.row_key id o, ==_iff op.id id);
  key_row = λ key id e p. ground (arith, h.key_row key id, ==_iff op.id id);
  key_own = λ key id p e q. ground (arith, h.key_own key id p, h.key_own key id o, ==_iff op.id id);
}

create_context-IsIndexed :
    (ctx : Context) (op : Operation) (r : MemoryRepository)
    → IsIndexed r
    → IsIndexed (create_context ctx op r).1
create_context-IsIndexed ctx op r h = elim (Bool-cases (is_ok (create_context ctx op r).0)) [
  | inl s ↦ let (e, a, b) = create_context_done ctx op r s in rw e (inserted-IsIndexed op r h a b)
  | inr f ↦ rw (create_context_failed ctx op r f) h
]

update_context-IsIndexed :
    (ctx : Context) (op : Operation) (r : MemoryRepository)
    → IsIndexed r
    → IsIndexed (update_context ctx op r).1
update_context-IsIndexed ctx op r h = elim (Bool-cases (is_ok (update_context ctx op r).0)) [
  | inl s ↦
      let (e, a) = update_context_done ctx op r s in
      elim (Option-cases (r.items op.id)) [
        | inl gone ↦ absurd (a gone)
        | inr (o, found) ↦ rw e (
            written-IsIndexed op o r h found
              (same_reservation-key o op (update_context_step ctx op r o s found).0))
      ]
  | inr f ↦ rw (update_context_failed ctx op r f) h
]

-- A history of the ledger: creates and updates in any order, under any contexts, failing or not.
pub data History : MemoryRepository → Type 0 where
  new : History new_memory_repository
  created :
      {r : MemoryRepository} (ctx : Context) (op : Operation)
      → History r
      → History (create_context ctx op r).1
  updated :
      {r : MemoryRepository} (ctx : Context) (op : Operation)
      → History r
      → History (update_context ctx op r).1

new-IsIndexed : IsIndexed new_memory_repository
unfolding new_memory_repository
new-IsIndexed = record {
  row_id = λ id o e. cc;
  row_key = λ id o e. cc;
  key_row = λ key id e. cc;
  key_own = λ key id o e. cc;
}

-- After any history every row stands under its own identifier, and identifiers and idempotency keys
-- lead to one another, so that a key belongs to one row at most.
pub History-IsIndexed : {r : MemoryRepository} → History r → IsIndexed r
History-IsIndexed new = new-IsIndexed
History-IsIndexed (created {r = r} ctx op h) =
    create_context-IsIndexed ctx op r (History-IsIndexed h)
History-IsIndexed (updated {r = r} ctx op h) =
    update_context-IsIndexed ctx op r (History-IsIndexed h)

get_context_still :
    (ctx : Context) (id : String) (r : MemoryRepository) → (get_context ctx id r).1 ≡ r
unfolding get_context ◌>>=◌
get_context_still ctx id r = ground arith

get_by_key_still :
    (ctx : Context) (key : String) (r : MemoryRepository)
    → (get_by_idempotency_key_context ctx key r).1 ≡ r
unfolding get_by_idempotency_key_context ◌>>=◌
get_by_key_still ctx key r = ground arith

update_context-lookup :
    (ctx : Context) (op : Operation) (r : MemoryRepository)
    → is_ok (update_context ctx op r).0 ≡ true
    → (update_context ctx op r).1.items op.id ≡ some op
update_context-lookup ctx op r h = ground (arith, update_context_done ctx op r, ==_refl op.id)

-- `MemoryRepository` keeps the promises of a ledger: a write that fails changes nothing, an
-- operation that was updated is the one stored under its identifier, and reads change nothing.
pub memory_repository-IsLedger : IsLedger memory_repository (λ r. r.items)
memory_repository-IsLedger = record {
  create_failed = create_context_failed;
  update_done = update_context-lookup;
  update_failed = update_context_failed;
  get_still = get_context_still;
  get_by_key_still = get_by_key_still;
}
