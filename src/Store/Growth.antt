-- ===== src/Store/Growth.antt =====
-- What the methods of the store (memory.go) do to deliveries, evidence and verification reports.
use mathlib.Core.Path.{subst}
use engineering_platform.Verification
use engineering_platform.Review
use engineering_platform.Prelude.{
  ==_iff, Bool, Context, Error, String, Triple-bind, Triple-end, Triple-still, Triple_after, arith,
  conflict, inl, nat_eq, not_found, refl, some, still-ctx_err, still-fail_if, still-find, string_eq,
  ℕ, ◌!=◌, ◌>>=◌, ◌≡◌, ◌⊎◌,
}
use engineering_platform.Core.{
  ClosureReceipt, DeliveryReceipt, EvidenceRef, RunInputManifest, TaskContract, WorkItem,
  work_state_eq,
}
use engineering_platform.Recovery.{complete}
use engineering_platform.Run.{Attempt, Run}
use engineering_platform.Session.{Checkpoint, Session, SteeringCommand}
use engineering_platform.Action.{Operation, risk_eq, state_eq}
use engineering_platform.Verification.{Plan}
use engineering_platform.Digests.{Hashing}
use engineering_platform.Store.{Memory}
use engineering_platform.Store.Works.{begin_recovery, complete_recovery, create_work, update_work}
use engineering_platform.Store.Tasks.{create_task, create_task_and_update_work, enter_task}
use engineering_platform.Store.Executions.{
  create_checkpoint, create_execution, create_execution_and_update_work, record_steering,
  update_execution, update_execution_and_work,
}
use engineering_platform.Store.Operations.{create_operation, update_operation}
use engineering_platform.Store.Closures.{
  create_closure_and_update_work, create_delivery, create_evidence, create_review_and_update_work,
  create_verification,
}
use engineering_platform.Store.Commands.{
  Command, apply, begin_recovery_command, complete_recovery_command, complete_run_command,
  create_checkpoint_command, create_closure_command, create_delivery_command,
  create_evidence_command, create_execution_command, create_operation_command,
  create_review_command, create_task_command, create_verification_command, create_work_command,
  freeze_task_command, record_steering_command, start_run_command, update_execution_command,
  update_operation_command, update_work_command,
}
use engineering_platform.Store.Commands.Atomic.{still-check_frozen, still-check_new}

-- The three maps are as they were.
abbrev pub Same : Memory → Memory → Type 0
Same m s =
    (s.evidence ≡ m.evidence)
    × (s.verification_reports ≡ m.verification_reports)
    × (s.deliveries ≡ m.deliveries)

-- Deliveries and evidence are only added, a delivery under its own id, and what reports there are
-- were there before, but for `extra`.
pub record Grows (extra : Verification.Report → Type 0) (m s : Memory) : Type 0 where
  pub keeps_evidence :
      (key : String) (e : EvidenceRef) → m.evidence key ≡ some e → s.evidence key ≡ some e
  pub keeps_delivery :
      (key : String) (d : DeliveryReceipt) → m.deliveries key ≡ some d → s.deliveries key ≡ some d
  pub adds_delivery :
      (key : String) (d : DeliveryReceipt)
      → s.deliveries key ≡ some d
      → (m.deliveries key ≡ some d) ⊎ (d.id ≡ key)
  pub adds_report :
      (key : String) (v : Verification.Report)
      → s.verification_reports key ≡ some v
      → (m.verification_reports key ≡ some v) ⊎ extra v

pub Same-Grows : {extra : Verification.Report → Type 0} {m s : Memory} → Same m s → Grows extra m s
Same-Grows (a, b, c) = record {
  keeps_evidence = λ key e q. rw a q;
  keeps_delivery = λ key d q. rw c q;
  adds_delivery = λ key d q. inl (subst (λ f. f key ≡ some d) c q);
  adds_report = λ key v q. inl (subst (λ f. f key ≡ some v) b q);
}

-- The report that a command may add.
abbrev pub Added : Command → Verification.Report → Type 0
Added (create_verification_command report) v = v ≡ report
Added _ v = ⊥

module _ (h : Hashing) (ctx : Context) (m : Memory) where
  unchanged-Same : (s : Memory) → s ≡ m → Same m s
  unchanged-Same s e = rw e (refl, refl, refl)

  still-Same : (e : Error) (s : Memory) → s ≡ m → Same m s
  still-Same e s u = unchanged-Same s u

  create_task-Same : (task : TaskContract) (plan : Plan) → Same m (create_task h task plan m).1
  unfolding create_task enter_task
  create_task-Same task plan =
      Triple_after
        (Triple-bind (Triple-still (still-check_frozen h task plan) still-Same) λ digests.
          Triple-bind (Triple-still (still-check_new h task digests.0 digests.1) still-Same)
            λ versions. Triple-end (λ s u. rw u (refl, refl, refl)))
        m refl

  freeze_task-Same :
      (task : TaskContract) (plan : Plan) (version : ℕ) (work : WorkItem)
      → Same m (create_task_and_update_work h ctx task plan version work m).1
  unfolding create_task_and_update_work enter_task
  freeze_task-Same task plan version work =
      Triple_after
        (Triple-bind (Triple-still (still-ctx_err ctx 0) still-Same) λ _.
          Triple-bind (Triple-still (still-check_frozen h task plan) still-Same) λ digests.
            Triple-bind (Triple-still (still-fail_if _ conflict) still-Same) λ _.
              Triple-bind (Triple-still (still-ctx_err ctx 1) still-Same) λ _.
                Triple-bind (Triple-still (still-find (λ m. m.works work.id) not_found) still-Same)
                  λ current.
                    Triple-bind
                      (Triple-still (still-fail_if (current.version != version) conflict)
                        still-Same)
                      λ _. Triple-bind (Triple-still (still-fail_if _ conflict) still-Same) λ _.
                        Triple-bind (Triple-still (still-fail_if _ conflict) still-Same) λ _.
                          Triple-bind
                            (Triple-still (still-check_new h task digests.0 digests.1) still-Same)
                            λ versions. Triple-end (λ s u. rw u (refl, refl, refl)))
        m refl

  begin_recovery-Same : (epoch : ℕ) → Same m (begin_recovery ctx epoch m).1
  unfolding begin_recovery ◌>>=◌
  begin_recovery-Same epoch = ground arith

  complete_recovery-Same :
      (epoch : ℕ) (reconciled : Bool) → Same m (complete_recovery ctx epoch reconciled m).1
  unfolding complete_recovery complete ◌>>=◌
  complete_recovery-Same epoch reconciled = ground arith

  create_work-Same : (item : WorkItem) → Same m (create_work ctx item m).1
  unfolding create_work ◌>>=◌
  create_work-Same item = ground arith

  update_work-Same :
      (id : String) (version : ℕ) (item : WorkItem) → Same m (update_work ctx id version item m).1
  unfolding update_work ◌>>=◌
  update_work-Same id version item = ground arith

  create_execution-Same :
      (value : Run) (sess : Session) (input : RunInputManifest)
      → Same m (create_execution h value sess input m).1
  unfolding create_execution ◌>>=◌
  create_execution-Same value sess input = ground arith

  create_execution_and_update_work-Same :
      (value : Run) (attempt : Attempt) (sess : Session) (input : RunInputManifest) (version : ℕ)
      (work : WorkItem)
      → Same m (create_execution_and_update_work h ctx value attempt sess input version work m).1
  unfolding create_execution_and_update_work ◌>>=◌
  create_execution_and_update_work-Same value attempt sess input version work = ground arith

  create_checkpoint-Same : (item : Checkpoint) → Same m (create_checkpoint h ctx item m).1
  unfolding create_checkpoint ◌>>=◌
  create_checkpoint-Same item = ground arith

  update_execution-Same :
      (id : String) (version : ℕ) (value : Run) (sess : Session)
      → Same m (update_execution ctx id version value sess m).1
  unfolding update_execution ◌>>=◌
  update_execution-Same id version value sess = ground arith

  record_steering-Same :
      (id : String) (version : ℕ) (value : Run) (sess : Session) (cmd : SteeringCommand)
      → Same m (record_steering ctx id version value sess cmd m).1
  unfolding record_steering ◌>>=◌
  record_steering-Same id version value sess cmd = ground arith

  update_execution_and_work-Same :
      (id : String) (version : ℕ) (value : Run) (sess : Session) (work_version : ℕ)
      (work : WorkItem)
      → Same m (update_execution_and_work ctx id version value sess work_version work m).1
  unfolding update_execution_and_work ◌>>=◌
  update_execution_and_work-Same id version value sess work_version work = ground arith

  create_operation-Same : (op : Operation) → Same m (create_operation ctx op m).1
  unfolding create_operation ◌>>=◌
  create_operation-Same op = ground arith

  update_operation-Same : (op : Operation) → Same m (update_operation ctx op m).1
  unfolding update_operation ◌>>=◌
  update_operation-Same op = ground arith

  create_review_and_update_work-Same :
      (report : Review.Report) (version : ℕ) (work : WorkItem)
      → Same m (create_review_and_update_work ctx report version work m).1
  unfolding create_review_and_update_work ◌>>=◌
  create_review_and_update_work-Same report version work = ground arith

  create_closure_and_update_work-Same :
      (item : ClosureReceipt) (version : ℕ) (work : WorkItem)
      → Same m (create_closure_and_update_work ctx item version work m).1
  unfolding create_closure_and_update_work ◌>>=◌
  create_closure_and_update_work-Same item version work = ground arith

  create_evidence-Grows :
      (extra : Verification.Report → Type 0) (item : EvidenceRef)
      → Grows extra m (create_evidence ctx item m).1
  unfolding create_evidence ◌>>=◌
  create_evidence-Grows extra item = record {
    keeps_evidence = λ key e q. ground (arith, q, ==_iff item.id key);
    keeps_delivery = λ key d q. ground (arith, q);
    adds_delivery = λ key d q. inl (ground (arith, q));
    adds_report = λ key v q. inl (ground (arith, q));
  }

  create_verification-Grows :
      (report : Verification.Report)
      → Grows (λ v. v ≡ report) m (create_verification ctx report m).1
  unfolding create_verification ◌>>=◌
  create_verification-Grows report = record {
    keeps_evidence = λ key e q. ground (arith, q);
    keeps_delivery = λ key d q. ground (arith, q);
    adds_delivery = λ key d q. inl (ground (arith, q));
    adds_report = λ key v q. ground (arith, q, ==_iff report.id key);
  }

  create_delivery-Grows :
      (extra : Verification.Report → Type 0) (item : DeliveryReceipt)
      → Grows extra m (create_delivery ctx item m).1
  unfolding create_delivery ◌>>=◌
  create_delivery-Grows extra item = record {
    keeps_evidence = λ key e q. ground (arith, q);
    keeps_delivery = λ key d q. ground (arith, q, ==_iff item.id key);
    adds_delivery = λ key d q. ground (arith, q, ==_iff item.id key);
    adds_report = λ key v q. inl (ground (arith, q));
  }

  pub apply-Grows : (c : Command) → Grows (Added c) m (apply h ctx c m).1
  unfolding apply
  apply-Grows (create_task_command task plan) = Same-Grows (create_task-Same task plan)
  apply-Grows (freeze_task_command task plan version work) =
      Same-Grows (freeze_task-Same task plan version work)
  apply-Grows (create_evidence_command item) =
      create_evidence-Grows (Added (create_evidence_command item)) item
  apply-Grows (create_delivery_command item) =
      create_delivery-Grows (Added (create_delivery_command item)) item
  apply-Grows (create_verification_command report) = create_verification-Grows report
  apply-Grows (begin_recovery_command epoch) = Same-Grows (begin_recovery-Same epoch)
  apply-Grows (complete_recovery_command epoch reconciled) =
      Same-Grows (complete_recovery-Same epoch reconciled)
  apply-Grows (create_work_command item) = Same-Grows (create_work-Same item)
  apply-Grows (update_work_command id version item) = Same-Grows (update_work-Same id version item)
  apply-Grows (create_execution_command value sess input) =
      Same-Grows (create_execution-Same value sess input)
  apply-Grows (start_run_command value attempt sess input version work) =
      Same-Grows (create_execution_and_update_work-Same value attempt sess input version work)
  apply-Grows (create_checkpoint_command item) = Same-Grows (create_checkpoint-Same item)
  apply-Grows (update_execution_command id version value sess) =
      Same-Grows (update_execution-Same id version value sess)
  apply-Grows (record_steering_command id version value sess cmd) =
      Same-Grows (record_steering-Same id version value sess cmd)
  apply-Grows (complete_run_command id version value sess work_version work) =
      Same-Grows (update_execution_and_work-Same id version value sess work_version work)
  apply-Grows (create_operation_command op) = Same-Grows (create_operation-Same op)
  apply-Grows (update_operation_command op) = Same-Grows (update_operation-Same op)
  apply-Grows (create_review_command report version work) =
      Same-Grows (create_review_and_update_work-Same report version work)
  apply-Grows (create_closure_command item version work) =
      Same-Grows (create_closure_and_update_work-Same item version work)
