-- ===== src/Store/Frozen.antt =====
-- Tasks, plans and run inputs are frozen by their digests (memory.go).
pub mod Always
use mathlib.Core.Path.{subst}
use engineering_platform.Prelude.{
  ==_iff, Map, String, arith, insert, nat_eq, none, ok, some, string_eq, sym, ℕ, ◌≡◌, ◌≢◌,
}
use engineering_platform.Core.{RunInputManifest, TaskContract, work_state_eq}
use engineering_platform.Verification.{Plan}
use engineering_platform.Digests.{Hashing, input_digest}
use engineering_platform.Store.{Memory}
use engineering_platform.Store.Tasks.{enter_task}

-- What a digest leads to has that digest, and a task's plan is there.
pub record Frozen (h : Hashing) (m : Memory) : Type 0 where
  pub task_digest :
      (d : String) (t : TaskContract) → m.tasks_by_digest d ≡ some t → h.hash_task t ≡ ok d
  pub plan_digest : (d : String) (p : Plan) → m.verification_plans d ≡ some p → h.hash_plan p ≡ ok d
  pub task_plan :
      (d : String) (t : TaskContract)
      → m.tasks_by_digest d ≡ some t
      → m.verification_plans t.verification_plan_digest ≢ none
  pub input_frozen :
      (d : String) (i : RunInputManifest) → m.run_inputs d ≡ some i → input_digest h i ≡ ok d

-- The three maps are as they were.
abbrev pub KeptFrozen : Memory → Memory → Type 0
KeptFrozen m s =
    (s.tasks_by_digest ≡ m.tasks_by_digest)
    × (s.verification_plans ≡ m.verification_plans)
    × (s.run_inputs ≡ m.run_inputs)

module _ (h : Hashing) where
  pub Frozen-kept : {m s : Memory} → KeptFrozen m s → Frozen h m → Frozen h s
  Frozen-kept (a, b, c) f = record {
    task_digest = λ d t e. f.task_digest d t (subst (λ g. g d ≡ some t) a e);
    plan_digest = λ d p e. f.plan_digest d p (subst (λ g. g d ≡ some p) b e);
    task_plan = λ d t e.
        subst (λ g. g t.verification_plan_digest ≢ none) (sym b)
          (f.task_plan d t (subst (λ g. g d ≡ some t) a e));
    input_frozen = λ d i e. f.input_frozen d i (subst (λ g. g d ≡ some i) c e);
  }

  -- What `check_frozen` has established.
  abbrev pub Checked : TaskContract → Plan → String × String → Type 0
  Checked task plan digests =
      (h.hash_task task ≡ ok digests.0)
      × (h.hash_plan plan ≡ ok digests.1)
      × (digests.1 ≡ task.verification_plan_digest)

  pub enter_task-Frozen :
      (task : TaskContract) (plan : Plan) (digests : String × String)
      (versions : Map ℕ TaskContract) (m : Memory)
      → Checked task plan digests
      → Frozen h m
      → Frozen h (enter_task task plan digests.0 digests.1 versions m)
  unfolding enter_task
  enter_task-Frozen task plan (td, pd) versions m (a, b, c) f = record {
    task_digest = λ d t e. ground (arith, a, e, f.task_digest d t, ==_iff td d);
    plan_digest = λ d p e. ground (arith, b, e, f.plan_digest d p, ==_iff pd d);
    task_plan = λ d t e.
        ground (arith, c, e, f.task_plan d t, ==_iff td d, ==_iff pd t.verification_plan_digest);
    input_frozen = λ d i e. f.input_frozen d i e;
  }

  pub input-Frozen :
      (input : RunInputManifest) (d : String) (m s : Memory)
      → input_digest h input ≡ ok d
      → (s.tasks_by_digest ≡ m.tasks_by_digest)
        × (s.verification_plans ≡ m.verification_plans)
        × (s.run_inputs ≡ insert d input m.run_inputs)
      → Frozen h m
      → Frozen h s
  input-Frozen input d m s q (a, b, c) f =
      Frozen-kept {m = record m { run_inputs = insert d input m.run_inputs }} (a, b, c)
        (record {
          task_digest = f.task_digest;
          plan_digest = f.plan_digest;
          task_plan = f.task_plan;
          input_frozen = λ k i e. ground (arith, q, e, f.input_frozen k i, ==_iff d k);
        })
