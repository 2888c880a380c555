-- ===== src/Api/Traffic/Methods.antt =====
-- The store's methods that the handlers call: what they read, and that they may be called.
use engineering_platform.Review
use engineering_platform.Verification
use engineering_platform.Prelude.{Bool, String, arith, some, ℕ, ◌>>=◌, ◌≡◌}
use engineering_platform.Core.{
  ClosureReceipt, DeliveryReceipt, EvidenceRef, RunInputManifest, TaskContract, WorkItem,
}
use engineering_platform.Run.{Attempt, Run}
use engineering_platform.Session.{Checkpoint, Session}
use engineering_platform.Verification.{Plan}
use engineering_platform.Digests.{Hashing}
use engineering_platform.Store.{Memory}
use engineering_platform.Store.Commands.{
  apply, begin_recovery_command, complete_recovery_command, complete_run_command,
  create_checkpoint_command, create_closure_command, create_delivery_command,
  create_evidence_command, create_review_command, create_verification_command, create_work_command,
  freeze_task_command, start_run_command, update_execution_command,
}
use engineering_platform.Store.Works.{
  begin_recovery, complete_recovery, create_work, get_recovery, get_work,
}
use engineering_platform.Store.Tasks.{
  create_task_and_update_work, get_task, get_task_by_digest, get_verification_plan_by_digest,
}
use engineering_platform.Store.Executions.{
  create_checkpoint, create_execution_and_update_work, get_checkpoint, get_execution,
  get_run_input_by_digest, get_steering, update_execution, update_execution_and_work,
}
use engineering_platform.Store.Closures.{
  create_closure_and_update_work, create_delivery, create_evidence, create_review_and_update_work,
  create_verification, get_closure, get_delivery, get_evidence, get_review, get_verification,
}
use engineering_platform.Api.Traffic.{Evaluated, here, then_write}
use engineering_platform.Api.Traffic.Rules.{Reads, Writes, Writes-still}

pub get_delivery-Reads :
    (id : String) → Reads (λ ctx. get_delivery ctx id) (λ a m. m.deliveries id ≡ some a)
unfolding get_delivery ◌>>=◌
get_delivery-Reads id = record {
  still = λ ctx m. ground arith;
  learn = λ ctx m a e. ground (arith, e);
}

pub get_evidence-Reads :
    (id : String) → Reads (λ ctx. get_evidence ctx id) (λ a m. m.evidence id ≡ some a)
unfolding get_evidence ◌>>=◌
get_evidence-Reads id = record {
  still = λ ctx m. ground arith;
  learn = λ ctx m a e. ground (arith, e);
}

pub get_task_by_digest-Reads :
    (digest : String)
    → Reads (λ ctx. get_task_by_digest ctx digest) (λ a m. m.tasks_by_digest digest ≡ some a)
unfolding get_task_by_digest ◌>>=◌
get_task_by_digest-Reads digest = record {
  still = λ ctx m. ground arith;
  learn = λ ctx m a e. ground (arith, e);
}

pub get_verification_plan_by_digest-Reads :
    (digest : String)
    → Reads
        (λ ctx. get_verification_plan_by_digest ctx digest)
        (λ a m. m.verification_plans digest ≡ some a)
unfolding get_verification_plan_by_digest ◌>>=◌
get_verification_plan_by_digest-Reads digest = record {
  still = λ ctx m. ground arith;
  learn = λ ctx m a e. ground (arith, e);
}

module _ (h : Hashing) {P : Memory → Type 0} where
  pub get_work-Writes : (id : String) → Writes h P (λ ctx. get_work ctx id)
  unfolding get_work ◌>>=◌
  get_work-Writes id = Writes-still (λ ctx m. ground arith)

  pub get_task-Writes : (id : String) → Writes h P (λ ctx. get_task ctx id)
  unfolding get_task ◌>>=◌
  get_task-Writes id = Writes-still (λ ctx m. ground arith)

  pub get_execution-Writes : (id : String) → Writes h P (λ ctx. get_execution ctx id)
  unfolding get_execution ◌>>=◌
  get_execution-Writes id = Writes-still (λ ctx m. ground arith)

  pub get_run_input_by_digest-Writes :
      (digest : String) → Writes h P (λ ctx. get_run_input_by_digest ctx digest)
  unfolding get_run_input_by_digest ◌>>=◌
  get_run_input_by_digest-Writes digest = Writes-still (λ ctx m. ground arith)

  pub get_steering-Writes : (id : String) → Writes h P (λ ctx. get_steering ctx id)
  unfolding get_steering ◌>>=◌
  get_steering-Writes id = Writes-still (λ ctx m. ground arith)

  pub get_checkpoint-Writes : (id : String) → Writes h P (λ ctx. get_checkpoint h ctx id)
  unfolding get_checkpoint ◌>>=◌
  get_checkpoint-Writes id = Writes-still (λ ctx m. ground arith)

  pub get_verification-Writes : (id : String) → Writes h P (λ ctx. get_verification ctx id)
  unfolding get_verification ◌>>=◌
  get_verification-Writes id = Writes-still (λ ctx m. ground arith)

  pub get_review-Writes : (id : String) → Writes h P (λ ctx. get_review ctx id)
  unfolding get_review ◌>>=◌
  get_review-Writes id = Writes-still (λ ctx m. ground arith)

  pub get_closure-Writes : (id : String) → Writes h P (λ ctx. get_closure ctx id)
  unfolding get_closure ◌>>=◌
  get_closure-Writes id = Writes-still (λ ctx m. ground arith)

  pub get_recovery-Writes : Writes h P (λ ctx. get_recovery ctx)
  unfolding get_recovery ◌>>=◌
  get_recovery-Writes = Writes-still (λ ctx m. ground arith)

  pub get_delivery-Writes : (id : String) → Writes h P (λ ctx. get_delivery ctx id)
  get_delivery-Writes id = Writes-still (get_delivery-Reads id).still

  pub get_evidence-Writes : (id : String) → Writes h P (λ ctx. get_evidence ctx id)
  get_evidence-Writes id = Writes-still (get_evidence-Reads id).still

  pub get_task_by_digest-Writes :
      (digest : String) → Writes h P (λ ctx. get_task_by_digest ctx digest)
  get_task_by_digest-Writes digest = Writes-still (get_task_by_digest-Reads digest).still

  pub get_verification_plan_by_digest-Writes :
      (digest : String) → Writes h P (λ ctx. get_verification_plan_by_digest ctx digest)
  get_verification_plan_by_digest-Writes digest =
      Writes-still (get_verification_plan_by_digest-Reads digest).still

  pub create_work-Writes : (item : WorkItem) → Writes h P (λ ctx. create_work ctx item)
  unfolding apply
  create_work-Writes item = record {
    write = λ ctx m p. then_write ctx (create_work_command item) here tt;
  }

  pub create_task_and_update_work-Writes :
      (task : TaskContract) (plan : Plan) (version : ℕ) (work : WorkItem)
      → Writes h P (λ ctx. create_task_and_update_work h ctx task plan version work)
  unfolding apply
  create_task_and_update_work-Writes task plan version work = record {
    write = λ ctx m p. then_write ctx (freeze_task_command task plan version work) here tt;
  }

  pub create_execution_and_update_work-Writes :
      (value : Run) (attempt : Attempt) (sess : Session) (input : RunInputManifest) (version : ℕ)
      (work : WorkItem)
      → Writes h P
          (λ ctx. create_execution_and_update_work h ctx value attempt sess input version work)
  unfolding apply
  create_execution_and_update_work-Writes value attempt sess input version work = record {
    write =
        λ ctx m p. then_write ctx (start_run_command value attempt sess input version work) here tt;
  }

  pub update_execution-Writes :
      (id : String) (version : ℕ) (value : Run) (sess : Session)
      → Writes h P (λ ctx. update_execution ctx id version value sess)
  unfolding apply
  update_execution-Writes id version value sess = record {
    write = λ ctx m p. then_write ctx (update_execution_command id version value sess) here tt;
  }

  pub update_execution_and_work-Writes :
      (id : String) (version : ℕ) (value : Run) (sess : Session) (work_version : ℕ)
      (work : WorkItem)
      → Writes h P (λ ctx. update_execution_and_work ctx id version value sess work_version work)
  unfolding apply
  update_execution_and_work-Writes id version value sess work_version work = record {
    write = λ ctx m p.
        then_write ctx (complete_run_command id version value sess work_version work) here tt;
  }

  pub create_checkpoint-Writes :
      (item : Checkpoint) → Writes h P (λ ctx. create_checkpoint h ctx item)
  unfolding apply
  create_checkpoint-Writes item = record {
    write = λ ctx m p. then_write ctx (create_checkpoint_command item) here tt;
  }

  pub create_delivery-Writes :
      (item : DeliveryReceipt) → Writes h P (λ ctx. create_delivery ctx item)
  unfolding apply
  create_delivery-Writes item = record {
    write = λ ctx m p. then_write ctx (create_delivery_command item) here tt;
  }

  pub create_evidence-Writes : (item : EvidenceRef) → Writes h P (λ ctx. create_evidence ctx item)
  unfolding apply
  create_evidence-Writes item = record {
    write = λ ctx m p. then_write ctx (create_evidence_command item) here tt;
  }

  pub create_review_and_update_work-Writes :
      (report : Review.Report) (version : ℕ) (work : WorkItem)
      → Writes h P (λ ctx. create_review_and_update_work ctx report version work)
  unfolding apply
  create_review_and_update_work-Writes report version work = record {
    write = λ ctx m p. then_write ctx (create_review_command report version work) here tt;
  }

  pub create_closure_and_update_work-Writes :
      (item : ClosureReceipt) (version : ℕ) (work : WorkItem)
      → Writes h P (λ ctx. create_closure_and_update_work ctx item version work)
  unfolding apply
  create_closure_and_update_work-Writes item version work = record {
    write = λ ctx m p. then_write ctx (create_closure_command item version work) here tt;
  }

  pub begin_recovery-Writes : (epoch : ℕ) → Writes h P (λ ctx. begin_recovery ctx epoch)
  unfolding apply
  begin_recovery-Writes epoch = record {
    write = λ ctx m p. then_write ctx (begin_recovery_command epoch) here tt;
  }

  pub complete_recovery-Writes :
      (epoch : ℕ) (reconciled : Bool) → Writes h P (λ ctx. complete_recovery ctx epoch reconciled)
  unfolding apply
  complete_recovery-Writes epoch reconciled = record {
    write = λ ctx m p. then_write ctx (complete_recovery_command epoch reconciled) here tt;
  }

  pub create_verification-Writes :
      (report : Verification.Report)
      → ((m : Memory) → P m → Evaluated h m report)
      → Writes h P (λ ctx. create_verification ctx report)
  unfolding apply
  create_verification-Writes report e = record {
    write = λ ctx m p. then_write ctx (create_verification_command report) here (e m p);
  }

pub ruleset method_rules = (
  get_work-Writes, get_task-Writes, get_execution-Writes, get_run_input_by_digest-Writes,
  get_steering-Writes, get_checkpoint-Writes, get_verification-Writes, get_review-Writes,
  get_closure-Writes, get_recovery-Writes, get_delivery-Writes, get_evidence-Writes,
  get_task_by_digest-Writes, get_verification_plan_by_digest-Writes, create_work-Writes,
  create_task_and_update_work-Writes, create_execution_and_update_work-Writes,
  update_execution-Writes, update_execution_and_work-Writes, create_checkpoint-Writes,
  create_delivery-Writes, create_evidence-Writes, create_review_and_update_work-Writes,
  create_closure_and_update_work-Writes, begin_recovery-Writes, complete_recovery-Writes,
)
