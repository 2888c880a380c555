-- ===== src/Store/Works/Versions.antt =====
-- Optimistic concurrency on work items (UpdateWorkContext of memory.go).
use engineering_platform.Prelude.{
  ==_iff, ==_refl, Bool-cases, Context, String, arith, false, inl, inr, insert, is_ok, nat_eq, some,
  string_eq, true, u64, ℕ, ◌+◌, ◌<◌, ◌>>=◌, ◌^◌, ◌≡◌,
}
use engineering_platform.Core.{WorkItem, work_state_eq}
use engineering_platform.Store.{Memory}
use engineering_platform.Store.Works.{update_work}

module _ (ctx : Context) (id : String) (n : ℕ) (item : WorkItem) (m : Memory) where
  update_work_result :
      is_ok (update_work ctx id n item m).0 ≡ true
      → (update_work ctx id n item m).1
        ≡ record m { works = insert id (record item { version = u64 (n + 1) }) m.works }
  unfolding update_work ◌>>=◌
  update_work_result h = ground arith

  update_work_expected :
      (current : WorkItem)
      → m.works id ≡ some current
      → is_ok (update_work ctx id n item m).0 ≡ true
      → current.version ≡ n
  unfolding update_work ◌>>=◌
  update_work_expected current e h = ground (arith, ==_iff current.version n)

next_differs : (n : ℕ) → n < 2 ^ 64 → u64 (n + 1) ≡ n → ⊥
next_differs n b e = omega arith

update_work_failed :
    (ctx : Context) (m : Memory) (id : String) (n : ℕ) (item : WorkItem)
    → is_ok (update_work ctx id n item m).0 ≡ false
    → (update_work ctx id n item m).1 ≡ m
unfolding update_work ◌>>=◌
update_work_failed ctx m id n item h = ground arith

-- Of two updates of a work item that were prepared from the same version, below 2 ^ 64, the one
-- that comes second fails and leaves the store as the first one made it, so no update is lost
-- unseen.
pub update_work_once :
    (ctx ctx' : Context) (id : String) (n : ℕ) (item item' : WorkItem) (m : Memory)
    → n < 2 ^ 64
    → is_ok (update_work ctx id n item m).0 ≡ true
    → let s = (update_work ctx id n item m).1 in
      (is_ok (update_work ctx' id n item' s).0 ≡ false) × ((update_work ctx' id n item' s).1 ≡ s)
update_work_once ctx ctx' id n item item' m b h =
    let s = (update_work ctx id n item m).1 in
    let stored : s.works id ≡ some (record item { version = u64 (n + 1) }) =
      rw (update_work_result ctx id n item m h, ==_refl id) in
    elim (Bool-cases (is_ok (update_work ctx' id n item' s).0)) [
      | inl t ↦
          let same =
            update_work_expected ctx' id n item' s (record item { version = u64 (n + 1) }) stored
              t in
          elim (next_differs n b same) [ ]
      | inr f ↦ (f, update_work_failed ctx' s id n item' f)
    ]
