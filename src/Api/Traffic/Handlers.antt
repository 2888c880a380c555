-- ===== src/Api/Traffic/Handlers.antt =====
-- The handlers that write no verification report.
use engineering_platform.Run
use engineering_platform.Session
use engineering_platform.Prelude.{List, Result, String, ℕ}
use engineering_platform.Core.{DeliveryReceipt, EvidenceRef, WorkItem}
use engineering_platform.Digests.{Hashing}
use engineering_platform.Store.{Memory}
use engineering_platform.Store.Commands.{Reachable}
use engineering_platform.Api.{Net}
use engineering_platform.Api.Works.{
  CreateTaskRequest, handle_create_task, handle_create_work, handle_get_task, handle_get_work,
}
use engineering_platform.Api.Runs.{
  CreateCheckpointRequest, CreateRunRequest, handle_complete_run, handle_create_checkpoint,
  handle_create_run, handle_get_checkpoint, handle_get_run, handle_get_steering, handle_pause,
  handle_resume, handle_takeover, mutate_execution, write_execution,
}
use engineering_platform.Api.Deliveries.{
  CreateDeliveryRequest, handle_create_delivery, handle_create_evidence, handle_get_delivery,
  handle_get_evidence, handle_get_verification,
}
use engineering_platform.Api.Reviews.{
  CreateClosureRequest, CreateReviewRequest, handle_create_closure, handle_create_review,
  handle_get_closure, handle_get_review,
}
use engineering_platform.Api.Recoveries.{
  handle_begin_recovery, handle_complete_recovery, handle_get_recovery,
}
use engineering_platform.Api.Traffic.{Between}
use engineering_platform.Api.Traffic.Rules.{Anything, Keeps, Keeps-call, handler_rules}
use engineering_platform.Api.Traffic.Methods.{method_rules}

module _ (h : Hashing) (net : Net)
    (rely : (n : ℕ) (m : Memory) → Reachable h m → Between h m (net.traffic n m)) where
  mutate_execution-Keeps :
      {A : Type 0} (id : String)
      (fn : Run.Run → Session.Session → Result (A × Run.Run × Session.Session))
      → Keeps h Anything (mutate_execution h net id fn)
  unfolding mutate_execution
  mutate_execution-Keeps id fn =
      search (handler_rules, method_rules, Keeps-call h net rely) depth 40

  pub handle_get_work-Keeps : (id : String) → Keeps h Anything (handle_get_work h net id)
  unfolding handle_get_work
  handle_get_work-Keeps id = search (handler_rules, method_rules, Keeps-call h net rely) depth 40

  pub handle_create_work-Keeps :
      (item : WorkItem) → Keeps h Anything (handle_create_work h net item)
  unfolding handle_create_work
  handle_create_work-Keeps item =
      search (handler_rules, method_rules, Keeps-call h net rely) depth 40

  pub handle_create_task-Keeps :
      (skill_digest : List String → Result String) (req : CreateTaskRequest)
      → Keeps h Anything (handle_create_task h net skill_digest req)
  unfolding handle_create_task
  handle_create_task-Keeps skill_digest req =
      search (handler_rules, method_rules, Keeps-call h net rely) depth 40

  pub handle_get_task-Keeps : (id : String) → Keeps h Anything (handle_get_task h net id)
  unfolding handle_get_task
  handle_get_task-Keeps id = search (handler_rules, method_rules, Keeps-call h net rely) depth 40

  pub handle_create_run-Keeps :
      (req : CreateRunRequest) → Keeps h Anything (handle_create_run h net req)
  unfolding handle_create_run
  handle_create_run-Keeps req = search (handler_rules, method_rules, Keeps-call h net rely) depth 40

  pub handle_get_run-Keeps : (id : String) → Keeps h Anything (handle_get_run h net id)
  unfolding handle_get_run
  handle_get_run-Keeps id = search (handler_rules, method_rules, Keeps-call h net rely) depth 40

  pub handle_pause-Keeps :
      (id : String) (epoch : ℕ) → Keeps h Anything (handle_pause h net id epoch)
  unfolding handle_pause write_execution
  handle_pause-Keeps id epoch =
      search (handler_rules, method_rules, Keeps-call h net rely, mutate_execution-Keeps) depth 40

  pub handle_resume-Keeps :
      (id : String) (epoch : ℕ) → Keeps h Anything (handle_resume h net id epoch)
  unfolding handle_resume write_execution
  handle_resume-Keeps id epoch =
      search (handler_rules, method_rules, Keeps-call h net rely, mutate_execution-Keeps) depth 40

  pub handle_takeover-Keeps :
      (id : String) (epoch : ℕ) → Keeps h Anything (handle_takeover h net id epoch)
  unfolding handle_takeover
  handle_takeover-Keeps id epoch = search (handler_rules, mutate_execution-Keeps) depth 40

  pub handle_get_steering-Keeps : (id : String) → Keeps h Anything (handle_get_steering h net id)
  unfolding handle_get_steering
  handle_get_steering-Keeps id =
      search (handler_rules, method_rules, Keeps-call h net rely) depth 40

  pub handle_create_checkpoint-Keeps :
      (run_id : String) (req : CreateCheckpointRequest)
      → Keeps h Anything (handle_create_checkpoint h net run_id req)
  unfolding handle_create_checkpoint
  handle_create_checkpoint-Keeps run_id req =
      search (handler_rules, method_rules, Keeps-call h net rely) depth 40

  pub handle_get_checkpoint-Keeps :
      (id : String) → Keeps h Anything (handle_get_checkpoint h net id)
  unfolding handle_get_checkpoint
  handle_get_checkpoint-Keeps id =
      search (handler_rules, method_rules, Keeps-call h net rely) depth 40

  pub handle_complete_run-Keeps :
      (run_id : String) (epoch : ℕ) → Keeps h Anything (handle_complete_run h net run_id epoch)
  unfolding handle_complete_run write_execution
  handle_complete_run-Keeps run_id epoch =
      search (handler_rules, method_rules, Keeps-call h net rely) depth 40

  pub handle_create_delivery-Keeps :
      (subject_digest : DeliveryReceipt → Result String) (req : CreateDeliveryRequest)
      → Keeps h Anything (handle_create_delivery net subject_digest req)
  unfolding handle_create_delivery
  handle_create_delivery-Keeps subject_digest req =
      search (handler_rules, method_rules, Keeps-call h net rely) depth 40

  pub handle_get_delivery-Keeps : (id : String) → Keeps h Anything (handle_get_delivery net id)
  unfolding handle_get_delivery
  handle_get_delivery-Keeps id =
      search (handler_rules, method_rules, Keeps-call h net rely) depth 40

  pub handle_create_evidence-Keeps :
      (delivery_id : String) (given : EvidenceRef)
      → Keeps h Anything (handle_create_evidence net delivery_id given)
  unfolding handle_create_evidence
  handle_create_evidence-Keeps delivery_id given =
      search (handler_rules, method_rules, Keeps-call h net rely) depth 40

  pub handle_get_evidence-Keeps : (id : String) → Keeps h Anything (handle_get_evidence net id)
  unfolding handle_get_evidence
  handle_get_evidence-Keeps id =
      search (handler_rules, method_rules, Keeps-call h net rely) depth 40

  pub handle_get_verification-Keeps :
      (id : String) → Keeps h Anything (handle_get_verification net id)
  unfolding handle_get_verification
  handle_get_verification-Keeps id =
      search (handler_rules, method_rules, Keeps-call h net rely) depth 40

  pub handle_create_review-Keeps :
      (req : CreateReviewRequest) → Keeps h Anything (handle_create_review net req)
  unfolding handle_create_review
  handle_create_review-Keeps req =
      search (handler_rules, method_rules, Keeps-call h net rely) depth 40

  pub handle_get_review-Keeps : (id : String) → Keeps h Anything (handle_get_review net id)
  unfolding handle_get_review
  handle_get_review-Keeps id = search (handler_rules, method_rules, Keeps-call h net rely) depth 40

  pub handle_create_closure-Keeps :
      (req : CreateClosureRequest) → Keeps h Anything (handle_create_closure net req)
  unfolding handle_create_closure
  handle_create_closure-Keeps req =
      search (handler_rules, method_rules, Keeps-call h net rely) depth 40

  pub handle_get_closure-Keeps : (id : String) → Keeps h Anything (handle_get_closure net id)
  unfolding handle_get_closure
  handle_get_closure-Keeps id = search (handler_rules, method_rules, Keeps-call h net rely) depth 40

  pub handle_get_recovery-Keeps : Keeps h Anything (handle_get_recovery net)
  unfolding handle_get_recovery
  handle_get_recovery-Keeps = search (handler_rules, method_rules, Keeps-call h net rely) depth 40

  pub handle_begin_recovery-Keeps :
      (expected_epoch : ℕ) → Keeps h Anything (handle_begin_recovery net expected_epoch)
  unfolding handle_begin_recovery
  handle_begin_recovery-Keeps expected_epoch =
      search (handler_rules, method_rules, Keeps-call h net rely) depth 40

  pub handle_complete_recovery-Keeps :
      (epoch : ℕ) → Keeps h Anything (handle_complete_recovery net epoch)
  unfolding handle_complete_recovery
  handle_complete_recovery-Keeps epoch =
      search (handler_rules, method_rules, Keeps-call h net rely) depth 40
