-- ===== src/Store/Tasks.antt =====
-- Task contracts and their revisions (CreateTask to GetVerificationPlanByDigestContext of memory.go).
use engineering_platform.Prelude.{
  Bool, Context, Exec, Map, Option, String, [], absent, conflict, ctx_err, empty, err, exists,
  fail_if, false, find, insert, lift, modify, nat_eq, none, not, not_found, ok, pure, some,
  string_eq, true, u64, ℕ, ◌!=◌, ◌&&◌, ◌+◌, ◌==◌, ◌>>=◌, ◌>>◌, ◌||◌,
}
use engineering_platform.Core.{TaskContract, WorkItem, draft, ready, work_state_eq}
use engineering_platform.Verification.{Plan}
use engineering_platform.Digests.{Hashing}
use engineering_platform.Store.{Memory, authorized}

-- if existing, ok := m.verificationPlans[planDigest]; ok { … }
unfoldable pub plan_agrees : Hashing → String → Option Plan → Bool
plan_agrees h digest none = true
plan_agrees h digest (some existing) = elim (h.hash_plan existing) [
  | err e ↦ false
  | ok d ↦ d == digest
]

-- The revisions of a task before this one: `versions`, made anew for the first revision.
unfoldable pub revisions_before :
    TaskContract → ℕ → Option (Map ℕ TaskContract) → Exec Memory (Map ℕ TaskContract)
revisions_before task latest none = do fail_if (task.revision != 1) conflict; pure empty
revisions_before task latest (some versions) = do
  absent (λ _. versions task.revision) exists
  fail_if (task.revision != u64 (latest + 1)) conflict
  pure versions

-- A missing key of `latestTaskRev` reads as 0.
abbrev pub latest_of : Memory → String → ℕ
latest_of m id = elim (m.latest_task_rev id) [ none ↦ 0 | some n ↦ n ]

unfoldable pub enter_task :
    TaskContract → Plan → String → String → Map ℕ TaskContract → Memory → Memory
enter_task task plan task_digest plan_digest versions m = record m {
  tasks = insert task.id (insert task.revision task versions) m.tasks;
  latest_task_rev = insert task.id task.revision m.latest_task_rev;
  tasks_by_digest = insert task_digest task m.tasks_by_digest;
  verification_plans = insert plan_digest plan m.verification_plans;
}

-- The checks of a task and its plan that need no lock; their digests.
unfoldable pub check_frozen : Hashing → TaskContract → Plan → Exec Memory (String × String)
check_frozen h task plan = do
  fail_if
      (task.revision == 0 || task.verification_plan_digest == "" || task.verification_plan_id == "")
      conflict
  task_digest ← lift (h.hash_task task)
  plan_digest ← lift (h.hash_plan plan)
  fail_if (plan.id != task.verification_plan_id || plan_digest != task.verification_plan_digest)
      conflict
  pure (task_digest, plan_digest)

-- The checks of digests and revisions under the lock.
unfoldable pub check_new :
    Hashing → TaskContract → String → String → Exec Memory (Map ℕ TaskContract)
unfolding plan_agrees
check_new h task task_digest plan_digest = do
  absent (λ m. m.tasks_by_digest task_digest) exists
  λ m. fail_if (not (plan_agrees h plan_digest (m.verification_plans plan_digest))) conflict m
  λ m. revisions_before task (latest_of m task.id) (m.tasks task.id) m

unfoldable pub create_task : Hashing → TaskContract → Plan → Exec Memory Unit
create_task h task plan = do
  (task_digest, plan_digest) ← check_frozen h task plan
  versions ← check_new h task task_digest plan_digest
  modify (enter_task task plan task_digest plan_digest versions)

unfoldable pub create_task_and_update_work :
    Hashing → Context → TaskContract → Plan → ℕ → WorkItem → Exec Memory Unit
create_task_and_update_work h ctx task plan expected_version work = do
  ctx_err ctx 0
  (task_digest, plan_digest) ← check_frozen h task plan
  fail_if
      (task.work_item_id != work.id
        || work.active_task_contract_digest != task_digest
        || work.state != ready)
      conflict
  ctx_err ctx 1
  current ← find (λ m. m.works work.id) not_found
  fail_if (current.version != expected_version) conflict
  fail_if (current.state != draft && current.state != ready) conflict
  fail_if (current.active_run_id != "") conflict
  versions ← check_new h task task_digest plan_digest
  modify λ m. record (enter_task task plan task_digest plan_digest versions m) {
    works = insert work.id (record work { version = u64 (expected_version + 1) }) m.works;
  }

-- `m.tasks[id][latest]` under a latest revision that is not there is the zero contract.
abbrev zero_task : TaskContract
zero_task = record {
  id = "";
  work_item_id = "";
  task_type = "";
  capability_ids = [];
  skill_ids = [];
  skill_contract_digest = "";
  skill_guidance_version = 0;
  repository = "";
  base_commit = "";
  target_id = "";
  target_platform = "";
  acceptance_criteria = [];
  allowed_actions = [];
  expected_outputs = [];
  verification_plan_id = "";
  verification_plan_digest = "";
  revision = 0;
}

abbrev task_at : Option (Map ℕ TaskContract) → ℕ → Option TaskContract
task_at none n = none
task_at (some versions) n = versions n

abbrev task_or_zero : Option TaskContract → TaskContract
task_or_zero none = zero_task
task_or_zero (some t) = t

unfoldable pub get_task : Context → String → Exec Memory TaskContract
get_task ctx id = do
  authorized ctx
  latest ← find (λ m. m.latest_task_rev id) not_found
  λ m. (ok (task_or_zero (task_at (m.tasks id) latest)), m)

unfoldable pub get_task_revision : Context → String → ℕ → Exec Memory TaskContract
get_task_revision ctx id revision = do
  authorized ctx
  versions ← find (λ m. m.tasks id) not_found
  find (λ _. versions revision) not_found

unfoldable pub get_task_by_digest : Context → String → Exec Memory TaskContract
get_task_by_digest ctx digest = do authorized ctx; find (λ m. m.tasks_by_digest digest) not_found

unfoldable pub get_verification_plan_by_digest : Context → String → Exec Memory Plan
get_verification_plan_by_digest ctx digest = do
  authorized ctx
  find (λ m. m.verification_plans digest) not_found
