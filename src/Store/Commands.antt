-- ===== src/Store/Commands.antt =====
-- Every method of the store that writes, as one value, so that a statement can range over all of
-- them and over sequences of them.
pub mod Atomic
use engineering_platform.Verification
use engineering_platform.Review
use engineering_platform.Prelude.{Bool, Context, Exec, String, err, ok, ℕ}
use engineering_platform.Core.{
  ClosureReceipt, DeliveryReceipt, EvidenceRef, RunInputManifest, TaskContract, WorkItem,
}
use engineering_platform.Run.{Attempt, Run}
use engineering_platform.Session.{Checkpoint, Session, SteeringCommand}
use engineering_platform.Action.{Operation}
use engineering_platform.Verification.{Plan}
use engineering_platform.Digests.{Hashing}
use engineering_platform.Store.{Memory, new_memory}
use engineering_platform.Store.Works.{begin_recovery, complete_recovery, create_work, update_work}
use engineering_platform.Store.Tasks.{create_task, create_task_and_update_work}
use engineering_platform.Store.Executions.{
  create_checkpoint, create_execution, create_execution_and_update_work, record_steering,
  update_execution, update_execution_and_work,
}
use engineering_platform.Store.Operations.{create_operation, update_operation}
use engineering_platform.Store.Closures.{
  create_closure_and_update_work, create_delivery, create_evidence, create_review_and_update_work,
  create_verification,
}

pub data Command : Type 0 where
  begin_recovery_command : ℕ → Command
  complete_recovery_command : ℕ → Bool → Command
  create_work_command : WorkItem → Command
  update_work_command : String → ℕ → WorkItem → Command
  create_task_command : TaskContract → Plan → Command
  freeze_task_command : TaskContract → Plan → ℕ → WorkItem → Command
  create_execution_command : Run → Session → RunInputManifest → Command
  start_run_command : Run → Attempt → Session → RunInputManifest → ℕ → WorkItem → Command
  create_checkpoint_command : Checkpoint → Command
  update_execution_command : String → ℕ → Run → Session → Command
  record_steering_command : String → ℕ → Run → Session → SteeringCommand → Command
  complete_run_command : String → ℕ → Run → Session → ℕ → WorkItem → Command
  create_operation_command : Operation → Command
  update_operation_command : Operation → Command
  create_delivery_command : DeliveryReceipt → Command
  create_evidence_command : EvidenceRef → Command
  create_verification_command : Verification.Report → Command
  create_review_command : Review.Report → ℕ → WorkItem → Command
  create_closure_command : ClosureReceipt → ℕ → WorkItem → Command

abbrev pub void : {A : Type 0} → Exec Memory A → Exec Memory Unit
void m s = let (r, s') = m s in (elim r [ ok a ↦ ok tt | err e ↦ err e ], s')

unfoldable pub apply : Hashing → Context → Command → Exec Memory Unit
apply h ctx (begin_recovery_command epoch) = void (begin_recovery ctx epoch)
apply h ctx (complete_recovery_command epoch reconciled) =
    void (complete_recovery ctx epoch reconciled)
apply h ctx (create_work_command item) = create_work ctx item
apply h ctx (update_work_command id version item) = update_work ctx id version item
apply h ctx (create_task_command task plan) = create_task h task plan
apply h ctx (freeze_task_command task plan version work) =
    create_task_and_update_work h ctx task plan version work
apply h ctx (create_execution_command value sess input) = create_execution h value sess input
apply h ctx (start_run_command value attempt sess input version work) =
    create_execution_and_update_work h ctx value attempt sess input version work
apply h ctx (create_checkpoint_command item) = void (create_checkpoint h ctx item)
apply h ctx (update_execution_command id version value sess) =
    update_execution ctx id version value sess
apply h ctx (record_steering_command id version value sess cmd) =
    record_steering ctx id version value sess cmd
apply h ctx (complete_run_command id version value sess work_version work) =
    update_execution_and_work ctx id version value sess work_version work
apply h ctx (create_operation_command op) = create_operation ctx op
apply h ctx (update_operation_command op) = update_operation ctx op
apply h ctx (create_delivery_command item) = create_delivery ctx item
apply h ctx (create_evidence_command item) = create_evidence ctx item
apply h ctx (create_verification_command report) = create_verification ctx report
apply h ctx (create_review_command report version work) =
    create_review_and_update_work ctx report version work
apply h ctx (create_closure_command item version work) =
    create_closure_and_update_work ctx item version work

-- The stores that commands lead to, under any contexts, the failing commands included.
pub data Reachable (h : Hashing) : Memory → Type 0 where
  start : Reachable h new_memory
  after :
      {m : Memory} (ctx : Context) (c : Command) → Reachable h m → Reachable h (apply h ctx c m).1
