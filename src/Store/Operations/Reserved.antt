-- ===== src/Store/Operations/Reserved.antt =====
-- An external action is reserved once (CreateContext and UpdateContext of memory.go).
use engineering_platform.Prelude.{
  ==_refl, Context, List, String, [], arith, background, false, inl, inr, insert, is_ok, nat_eq,
  none, ok, string_eq, true, ◌>>=◌, ◌∷◌, ◌≡◌, ◌≢◌, ◌⊎◌,
}
use engineering_platform.Action.{Operation, risk_eq, state_eq}
use engineering_platform.Store.{Memory}
use engineering_platform.Store.Operations.{
  create_operation, get_operation, get_operation_by_key, update_operation,
}

-- A write of the action ledger, by any caller under any context.
pub data LedgerWrite : Type 0 where
  creates : Context → Operation → LedgerWrite
  updates : Context → Operation → LedgerWrite

abbrev pub write : LedgerWrite → Memory → Memory
write (creates ctx op) m = (create_operation ctx op m).1
write (updates ctx op) m = (update_operation ctx op m).1

abbrev pub write_all : List LedgerWrite → Memory → Memory
write_all [] m = m
write_all (w ∷ ws) m = write_all ws (write w m)

-- The identifier and the idempotency key are taken.
record Taken (id key : String) (m : Memory) : Type 0 where
  by_id : m.operations id ≢ none
  by_key : m.action_idempotency key ≢ none

module _ (ctx : Context) (op : Operation) (m : Memory) where
  create_operation_done :
      is_ok (create_operation ctx op m).0 ≡ true
      → ((create_operation ctx op m).1 ≡ record m {
        operations = insert op.id op m.operations;
        action_idempotency = insert op.idempotency_key op.id m.action_idempotency;
      })
        × (m.operations op.id ≡ none)
        × (m.action_idempotency op.idempotency_key ≡ none)
  unfolding create_operation ◌>>=◌
  create_operation_done h = ground arith

  create_operation_taken :
      (m.operations op.id ≢ none) ⊎ (m.action_idempotency op.idempotency_key ≢ none)
      → (is_ok (create_operation ctx op m).0 ≡ false) × ((create_operation ctx op m).1 ≡ m)
  unfolding create_operation ◌>>=◌
  create_operation_taken h = ground (arith, h)

  create_operation-Taken :
      (id key : String) → Taken id key m → Taken id key (create_operation ctx op m).1
  unfolding create_operation ◌>>=◌
  create_operation-Taken id key t = record {
    by_id = ground (arith, t.by_id);
    by_key = ground (arith, t.by_key);
  }

  update_operation-Taken :
      (id key : String) → Taken id key m → Taken id key (update_operation ctx op m).1
  unfolding update_operation ◌>>=◌
  update_operation-Taken id key t = record {
    by_id = ground (arith, t.by_id);
    by_key = ground (arith, t.by_key);
  }

write_all-Taken :
    (id key : String) (ws : List LedgerWrite) (m : Memory)
    → Taken id key m
    → Taken id key (write_all ws m)
write_all-Taken id key [] m t = t
write_all-Taken id key (creates ctx op ∷ ws) m t =
    write_all-Taken id key ws _ (create_operation-Taken ctx op m id key t)
write_all-Taken id key (updates ctx op ∷ ws) m t =
    write_all-Taken id key ws _ (update_operation-Taken ctx op m id key t)

Taken-meets :
    (op again : Operation) (s : Memory)
    → Taken op.id op.idempotency_key s
    → (again.id ≡ op.id) ⊎ (again.idempotency_key ≡ op.idempotency_key)
    → (s.operations again.id ≢ none) ⊎ (s.action_idempotency again.idempotency_key ≢ none)
Taken-meets op again s t (inl e) = inl (rw e t.by_id)
Taken-meets op again s t (inr e) = inr (rw e t.by_key)

module _ (ctx : Context) (op : Operation) (m : Memory)
    (created : is_ok (create_operation ctx op m).0 ≡ true) where
  created-Taken : Taken op.id op.idempotency_key (create_operation ctx op m).1
  created-Taken = rw (create_operation_done ctx op m created).0 (record {
    by_id = ground (arith, ==_refl op.id);
    by_key = ground (arith, ==_refl op.idempotency_key);
  })

  created-get :
      get_operation background op.id (create_operation ctx op m).1
      ≡ (ok op, (create_operation ctx op m).1)
  unfolding get_operation ◌>>=◌
  created-get = rw (create_operation_done ctx op m created).0 (ground (arith, ==_refl op.id))

  created-get_by_key :
      get_operation_by_key background op.idempotency_key (create_operation ctx op m).1
      ≡ (ok op, (create_operation ctx op m).1)
  unfolding get_operation_by_key ◌>>=◌
  created-get_by_key =
      rw (create_operation_done ctx op m created).0
        (ground (arith, ==_refl op.id, ==_refl op.idempotency_key))

-- An operation is created only where no operation has its identifier or its idempotency key, and is
-- then read back by either. Whatever writes of the ledger follow, by whomever, a later create with
-- the same identifier or the same key fails and changes nothing.
pub create_operation_once :
    (ctx later : Context) (op again : Operation) (m : Memory) (writes : List LedgerWrite)
    → is_ok (create_operation ctx op m).0 ≡ true
    → (again.id ≡ op.id) ⊎ (again.idempotency_key ≡ op.idempotency_key)
    → let s = (create_operation ctx op m).1 in
      let s' = write_all writes s in
      (m.operations op.id ≡ none)
      × (m.action_idempotency op.idempotency_key ≡ none)
      × (get_operation background op.id s ≡ (ok op, s))
      × (get_operation_by_key background op.idempotency_key s ≡ (ok op, s))
      × (is_ok (create_operation later again s').0 ≡ false)
      × ((create_operation later again s').1 ≡ s')
create_operation_once ctx later op again m writes created same =
    let (e, by_id, by_key) = create_operation_done ctx op m created in
    let s = (create_operation ctx op m).1 in
    let taken =
      write_all-Taken op.id op.idempotency_key writes s (created-Taken ctx op m created) in
    let (fails, still) =
      create_operation_taken later again (write_all writes s)
        (Taken-meets op again (write_all writes s) taken same) in
    (by_id, by_key, created-get ctx op m created, created-get_by_key ctx op m created, fails, still)
