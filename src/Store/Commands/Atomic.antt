-- ===== src/Store/Commands/Atomic.antt =====
-- A method of the store that fails has changed nothing.
use engineering_platform.Verification
use engineering_platform.Review
use engineering_platform.Prelude.{
  Bool, Bool-cases, Context, Error, Exec, Map, Option, String, Triple, Triple-bind, Triple-still,
  Triple-total, Triple_failed, arith, conflict, false, inl, inr, is_ok, nat_eq, none, not_found,
  refl, some, still-ctx_err, still-fail_if, still-find, string_eq, ℕ, ◌!=◌, ◌>>=◌, ◌≡◌,
}
use engineering_platform.Core.{
  ClosureReceipt, DeliveryReceipt, EvidenceRef, RunInputManifest, TaskContract, WorkItem,
  work_state_eq,
}
use engineering_platform.Recovery.{complete}
use engineering_platform.Run.{Attempt, Run}
use engineering_platform.Session.{Checkpoint, Session, SteeringCommand}
use engineering_platform.Action.{Operation, risk_eq, state_eq}
use engineering_platform.Verification.{Plan}
use engineering_platform.Digests.{Hashing}
use engineering_platform.Store.{Memory}
use engineering_platform.Store.Works.{begin_recovery, complete_recovery, create_work, update_work}
use engineering_platform.Store.Tasks.{
  check_frozen, check_new, create_task, create_task_and_update_work, latest_of, revisions_before,
}
use engineering_platform.Store.Executions.{
  create_checkpoint, create_execution, create_execution_and_update_work, record_steering,
  update_execution, update_execution_and_work,
}
use engineering_platform.Store.Operations.{create_operation, update_operation}
use engineering_platform.Store.Closures.{
  create_closure_and_update_work, create_delivery, create_evidence, create_review_and_update_work,
  create_verification,
}
use engineering_platform.Store.Commands.{
  Command, apply, begin_recovery_command, complete_recovery_command, complete_run_command,
  create_checkpoint_command, create_closure_command, create_delivery_command,
  create_evidence_command, create_execution_command, create_operation_command,
  create_review_command, create_task_command, create_verification_command, create_work_command,
  freeze_task_command, record_steering_command, start_run_command, update_execution_command,
  update_operation_command, update_work_command, void,
}

module _ (h : Hashing) where
  pub still-check_frozen :
      (task : TaskContract) (plan : Plan) (m : Memory) → (check_frozen h task plan m).1 ≡ m
  unfolding check_frozen ◌>>=◌
  still-check_frozen task plan m = ground arith

  still-revisions_before :
      (task : TaskContract) (latest : ℕ) (o : Option (Map ℕ TaskContract)) (m : Memory)
      → (revisions_before task latest o m).1 ≡ m
  unfolding revisions_before ◌>>=◌
  still-revisions_before task latest none m = ground arith
  still-revisions_before task latest (some versions) m = ground arith

  pub still-check_new :
      (task : TaskContract) (task_digest plan_digest : String) (m : Memory)
      → (check_new h task task_digest plan_digest m).1 ≡ m
  unfolding check_new ◌>>=◌
  still-check_new task task_digest plan_digest m =
      ground (arith, still-revisions_before task (latest_of m task.id) (m.tasks task.id) m)

module _ (h : Hashing) (m : Memory) where
  abbrev Untouched : Memory → Type 0
  Untouched s = s ≡ m

  same : (e : Error) (s : Memory) → Untouched s → Untouched s
  same e s u = u

  create_task_failed :
      (task : TaskContract) (plan : Plan)
      → Triple Untouched (create_task h task plan) (λ _ _. Unit) (λ _. Untouched)
  unfolding create_task
  create_task_failed task plan =
      Triple-bind (Triple-still (still-check_frozen h task plan) same) λ digests.
        Triple-bind (Triple-still (still-check_new h task digests.0 digests.1) same)
          λ versions. Triple-total (λ s. refl)

  freeze_task_failed :
      (ctx : Context) (task : TaskContract) (plan : Plan) (version : ℕ) (work : WorkItem)
      → Triple Untouched
          (create_task_and_update_work h ctx task plan version work)
          (λ _ _. Unit)
          (λ _. Untouched)
  unfolding create_task_and_update_work
  freeze_task_failed ctx task plan version work =
      Triple-bind (Triple-still (still-ctx_err ctx 0) same) λ _.
        Triple-bind (Triple-still (still-check_frozen h task plan) same) λ digests.
          Triple-bind (Triple-still (still-fail_if _ conflict) same) λ _.
            Triple-bind (Triple-still (still-ctx_err ctx 1) same) λ _.
              Triple-bind (Triple-still (still-find (λ m. m.works work.id) not_found) same)
                λ current.
                  Triple-bind
                    (Triple-still (still-fail_if (current.version != version) conflict) same)
                    λ _. Triple-bind (Triple-still (still-fail_if _ conflict) same) λ _.
                      Triple-bind (Triple-still (still-fail_if _ conflict) same) λ _.
                        Triple-bind (Triple-still (still-check_new h task digests.0 digests.1) same)
                          λ versions. Triple-total (λ s. refl)

void_failed :
    {A : Type 0} (f : Exec Memory A) (m : Memory)
    → (is_ok (f m).0 ≡ false → (f m).1 ≡ m)
    → is_ok (void f m).0 ≡ false
    → (void f m).1 ≡ m
void_failed f m h e = h (elim (Bool-cases (is_ok (f m).0)) [ inl t ↦ ground arith | inr n ↦ n ])

module _ (h : Hashing) (ctx : Context) (m : Memory) where
  begin_recovery_failed :
      (epoch : ℕ)
      → is_ok (begin_recovery ctx epoch m).0 ≡ false
      → (begin_recovery ctx epoch m).1 ≡ m
  unfolding begin_recovery ◌>>=◌
  begin_recovery_failed epoch e = ground arith

  complete_recovery_failed :
      (epoch : ℕ) (reconciled : Bool)
      → is_ok (complete_recovery ctx epoch reconciled m).0 ≡ false
      → (complete_recovery ctx epoch reconciled m).1 ≡ m
  unfolding complete_recovery complete ◌>>=◌
  complete_recovery_failed epoch reconciled e = ground arith

  create_work_failed :
      (item : WorkItem) → is_ok (create_work ctx item m).0 ≡ false → (create_work ctx item m).1 ≡ m
  unfolding create_work ◌>>=◌
  create_work_failed item e = ground arith

  update_work_failed :
      (id : String) (version : ℕ) (item : WorkItem)
      → is_ok (update_work ctx id version item m).0 ≡ false
      → (update_work ctx id version item m).1 ≡ m
  unfolding update_work ◌>>=◌
  update_work_failed id version item e = ground arith

  create_execution_failed :
      (value : Run) (sess : Session) (input : RunInputManifest)
      → is_ok (create_execution h value sess input m).0 ≡ false
      → (create_execution h value sess input m).1 ≡ m
  unfolding create_execution ◌>>=◌
  create_execution_failed value sess input e = ground arith

  create_execution_and_update_work_failed :
      (value : Run) (attempt : Attempt) (sess : Session) (input : RunInputManifest) (version : ℕ)
      (work : WorkItem)
      → is_ok (create_execution_and_update_work h ctx value attempt sess input version work m).0
        ≡ false
      → (create_execution_and_update_work h ctx value attempt sess input version work m).1 ≡ m
  unfolding create_execution_and_update_work ◌>>=◌
  create_execution_and_update_work_failed value attempt sess input version work e = ground arith

  create_checkpoint_failed :
      (item : Checkpoint)
      → is_ok (create_checkpoint h ctx item m).0 ≡ false
      → (create_checkpoint h ctx item m).1 ≡ m
  unfolding create_checkpoint ◌>>=◌
  create_checkpoint_failed item e = ground arith

  update_execution_failed :
      (id : String) (version : ℕ) (value : Run) (sess : Session)
      → is_ok (update_execution ctx id version value sess m).0 ≡ false
      → (update_execution ctx id version value sess m).1 ≡ m
  unfolding update_execution ◌>>=◌
  update_execution_failed id version value sess e = ground arith

  record_steering_failed :
      (id : String) (version : ℕ) (value : Run) (sess : Session) (cmd : SteeringCommand)
      → is_ok (record_steering ctx id version value sess cmd m).0 ≡ false
      → (record_steering ctx id version value sess cmd m).1 ≡ m
  unfolding record_steering ◌>>=◌
  record_steering_failed id version value sess cmd e = ground arith

  update_execution_and_work_failed :
      (id : String) (version : ℕ) (value : Run) (sess : Session) (work_version : ℕ)
      (work : WorkItem)
      → is_ok (update_execution_and_work ctx id version value sess work_version work m).0 ≡ false
      → (update_execution_and_work ctx id version value sess work_version work m).1 ≡ m
  unfolding update_execution_and_work ◌>>=◌
  update_execution_and_work_failed id version value sess work_version work e = ground arith

  create_operation_failed :
      (op : Operation)
      → is_ok (create_operation ctx op m).0 ≡ false
      → (create_operation ctx op m).1 ≡ m
  unfolding create_operation ◌>>=◌
  create_operation_failed op e = ground arith

  update_operation_failed :
      (op : Operation)
      → is_ok (update_operation ctx op m).0 ≡ false
      → (update_operation ctx op m).1 ≡ m
  unfolding update_operation ◌>>=◌
  update_operation_failed op e = ground arith

  create_delivery_failed :
      (item : DeliveryReceipt)
      → is_ok (create_delivery ctx item m).0 ≡ false
      → (create_delivery ctx item m).1 ≡ m
  unfolding create_delivery ◌>>=◌
  create_delivery_failed item e = ground arith

  create_evidence_failed :
      (item : EvidenceRef)
      → is_ok (create_evidence ctx item m).0 ≡ false
      → (create_evidence ctx item m).1 ≡ m
  unfolding create_evidence ◌>>=◌
  create_evidence_failed item e = ground arith

  create_verification_failed :
      (report : Verification.Report)
      → is_ok (create_verification ctx report m).0 ≡ false
      → (create_verification ctx report m).1 ≡ m
  unfolding create_verification ◌>>=◌
  create_verification_failed report e = ground arith

  create_review_and_update_work_failed :
      (report : Review.Report) (version : ℕ) (work : WorkItem)
      → is_ok (create_review_and_update_work ctx report version work m).0 ≡ false
      → (create_review_and_update_work ctx report version work m).1 ≡ m
  unfolding create_review_and_update_work ◌>>=◌
  create_review_and_update_work_failed report version work e = ground arith

  create_closure_and_update_work_failed :
      (item : ClosureReceipt) (version : ℕ) (work : WorkItem)
      → is_ok (create_closure_and_update_work ctx item version work m).0 ≡ false
      → (create_closure_and_update_work ctx item version work m).1 ≡ m
  unfolding create_closure_and_update_work ◌>>=◌
  create_closure_and_update_work_failed item version work e = ground arith

  -- A write that fails, for whatever reason, leaves every record of the store as it was.
  pub apply_failed : (c : Command) → is_ok (apply h ctx c m).0 ≡ false → (apply h ctx c m).1 ≡ m
  unfolding apply
  apply_failed (create_task_command task plan) e =
      Triple_failed (create_task_failed h m task plan) m refl e
  apply_failed (freeze_task_command task plan version work) e =
      Triple_failed (freeze_task_failed h m ctx task plan version work) m refl e
  apply_failed (begin_recovery_command epoch) e =
      void_failed (begin_recovery ctx epoch) m (begin_recovery_failed epoch) e
  apply_failed (complete_recovery_command epoch reconciled) e =
      void_failed (complete_recovery ctx epoch reconciled) m
        (complete_recovery_failed epoch reconciled) e
  apply_failed (create_work_command item) e = create_work_failed item e
  apply_failed (update_work_command id version item) e = update_work_failed id version item e
  apply_failed (create_execution_command value sess input) e =
      create_execution_failed value sess input e
  apply_failed (start_run_command value attempt sess input version work) e =
      create_execution_and_update_work_failed value attempt sess input version work e
  apply_failed (create_checkpoint_command item) e =
      void_failed (create_checkpoint h ctx item) m (create_checkpoint_failed item) e
  apply_failed (update_execution_command id version value sess) e =
      update_execution_failed id version value sess e
  apply_failed (record_steering_command id version value sess cmd) e =
      record_steering_failed id version value sess cmd e
  apply_failed (complete_run_command id version value sess work_version work) e =
      update_execution_and_work_failed id version value sess work_version work e
  apply_failed (create_operation_command op) e = create_operation_failed op e
  apply_failed (update_operation_command op) e = update_operation_failed op e
  apply_failed (create_delivery_command item) e = create_delivery_failed item e
  apply_failed (create_evidence_command item) e = create_evidence_failed item e
  apply_failed (create_verification_command report) e = create_verification_failed report e
  apply_failed (create_review_command report version work) e =
      create_review_and_update_work_failed report version work e
  apply_failed (create_closure_command item version work) e =
      create_closure_and_update_work_failed item version work e
