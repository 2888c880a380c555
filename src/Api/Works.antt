-- ===== src/Api/Works.antt =====
-- Work items and tasks (handleCreateWork, handleGetWork, handleCreateTask and handleGetTask of
-- internal/api/server.go).
use engineering_platform.Material
use engineering_platform.Prelude.{
  Bool, Exec, List, Option, Result, String, err, false, http, if◌then◌else◌, nat_eq, none, not, ok,
  some, string_eq, true, ℕ, ◌!=◌, ◌&&◌, ◌==◌, ◌>>=◌, ◌>>◌, ◌||◌,
}
use engineering_platform.Core.{
  TaskContract, WorkItem, draft, other, ready, transition, work_state_eq,
}
use engineering_platform.Verification.{Plan, validate_plan}
use engineering_platform.Digests.{Hashing}
use engineering_platform.Material.{Manifest, Readiness, Status, blocked}
use engineering_platform.Routing.{Route, TargetContext, resolve_for_target, route}
use engineering_platform.Store.{Memory}
use engineering_platform.Store.Works.{create_work, get_work}
use engineering_platform.Store.Tasks.{create_task_and_update_work, get_task}
use engineering_platform.Api.{
  Net, Reply, answer, call, compute, create_error, freeze_error, public_error, refuse_if,
  store_error,
}

-- handleCreateWork: the values that a request leaves out.
abbrev pub filled : ℕ → WorkItem → WorkItem
filled now item = record item {
  state = if item.state == other "" then draft else item.state;
  version = if item.version == 0 then 1 else item.version;
  created_at = if item.created_at == 0 then now else item.created_at;
}

pub record CreateTaskRequest : Type 0 where
  pub contract : TaskContract
  pub manifest : Manifest
  pub subsystem : String
  pub target_context : Option TargetContext
  pub verification_plan : Plan

abbrev mismatched_target : Manifest → Option TargetContext → Bool
mismatched_target manifest none = false
mismatched_target manifest (some target) = target.target_id != manifest.target_id

abbrev platform_of : Option TargetContext → String
platform_of none = ""
platform_of (some target) = target.platform

-- The digest and the version of the skills' guidance, which only a typed target freezes. The catalog
-- of skills is that of internal/embedded.
abbrev guidance :
    (List String → Result String) → Option TargetContext → List String → Result (String × ℕ)
guidance skill_digest none skills = ok ("", 0)
guidance skill_digest (some target) skills = elim (skill_digest skills) [
  | err e ↦ err e
  | ok digest ↦ ok (digest, 1)
]

abbrev blocked_material : Status → Bool
blocked_material blocked = true
blocked_material _ = false

-- The contract as the handler freezes it.
abbrev pub frozen_contract : CreateTaskRequest → Route → String → ℕ → String → TaskContract
frozen_contract req route skill_digest guidance_version plan_digest = record req.contract {
  capability_ids = route.capability_ids;
  skill_ids = route.skill_ids;
  skill_contract_digest = skill_digest;
  skill_guidance_version = guidance_version;
  repository = req.manifest.repository;
  base_commit = req.manifest.base_commit;
  target_id = req.manifest.target_id;
  target_platform = platform_of req.target_context;
  acceptance_criteria = req.manifest.acceptance_criteria;
  verification_plan_id = req.verification_plan.id;
  verification_plan_digest = plan_digest;
  revision = if req.contract.revision == 0 then 1 else req.contract.revision;
}

-- if work.State == core.WorkDraft { work.Transition(core.WorkReady) }
abbrev readied : WorkItem → Result (Unit {0}) × WorkItem
readied work = if work.state == draft then transition ready work else (ok tt, work)

module _ (h : Hashing) (net : Net) where
  unfoldable pub handle_create_work : WorkItem → Exec Memory (Reply WorkItem)
  handle_create_work request = do
    refuse_if (request.id == "" || request.title == "" || request.human_owner == "") 400
        "work_item_id, title and human_owner are required"
    call net 0 create_error (λ ctx. create_work ctx (filled net.now request))
    answer 201 (filled net.now request)

  unfoldable pub handle_get_work : String → Exec Memory (Reply WorkItem)
  handle_get_work id = do item ← call net 0 store_error (λ ctx. get_work ctx id); answer 200 item

  unfoldable pub handle_create_task :
      (List String → Result String)
      → CreateTaskRequest
      → Exec Memory (Reply (TaskContract × String × Readiness))
  handle_create_task skill_digest req = do
    refuse_if
        (req.contract.id == "" || req.contract.work_item_id == "" || req.contract.task_type == "")
        400 "task_contract_id, work_item_id and task_type are required"
    work ← call net 0 store_error (λ ctx. get_work ctx req.contract.work_item_id)
    refuse_if (work.state != draft && work.state != ready) 409
        "task contract revisions are only accepted while work is DRAFT or READY"
    let manifest = record req.manifest { task_type = req.contract.task_type }
    let readiness = Material.evaluate manifest
    refuse_if (blocked_material readiness.status) 422 "material blocked"
    refuse_if (mismatched_target manifest req.target_context) 422
        "target_context target_id must match material target_id"
    route ←
        compute (λ e. public_error 422)
          (resolve_for_target req.contract.task_type req.subsystem req.target_context)
    (skills, version) ←
        compute (λ e. http 503 "selected Skill contract catalog is invalid")
          (guidance skill_digest req.target_context route.skill_ids)
    refuse_if (not (validate_plan req.verification_plan manifest.acceptance_criteria)) 422
        "verification plan must cover every acceptance criterion"
    plan_digest ← compute (λ e. public_error 500) (h.hash_plan req.verification_plan)
    let contract = frozen_contract req route skills version plan_digest
    digest ← compute (λ e. public_error 500) (h.hash_task contract)
    let next = readied (record work { active_task_contract_digest = digest; active_run_id = "" })
    compute (λ e. public_error 409) next.0
    call net 1 freeze_error (λ ctx.
        create_task_and_update_work h ctx contract req.verification_plan work.version next.1)
    answer 201 (contract, digest, readiness)

  unfoldable pub handle_get_task : String → Exec Memory (Reply (TaskContract × String))
  handle_get_task id = do
    task ← call net 0 store_error (λ ctx. get_task ctx id)
    digest ← compute (λ e. public_error 500) (h.hash_task task)
    answer 200 (task, digest)
