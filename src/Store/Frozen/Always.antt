-- ===== src/Store/Frozen/Always.antt =====
-- The digests stay true in every store that the methods lead to.
use engineering_platform.Verification
use engineering_platform.Review
use mathlib.Core.Path.{subst}
use mathlib.Core.Bool.{false≢true}
use engineering_platform.Prelude.{
  ==_iff, Bool, Bool-cases, Context, Error, Exec, Post, Result, Result-cases, String, Triple,
  Triple-bind, Triple-end, Triple-still, Triple_after, arith, conflict, err, false, inl, inr,
  insert, is_ok, nat_eq, not_found, ok, refl, still-ctx_err, still-fail_if, still-find, string_eq,
  sym, true, ℕ, ◌!=◌, ◌>>=◌, ◌∙◌, ◌≡◌,
}
use engineering_platform.Core.{
  ClosureReceipt, DeliveryReceipt, EvidenceRef, RunInputManifest, TaskContract, WorkItem,
  work_state_eq,
}
use engineering_platform.Recovery.{complete}
use engineering_platform.Run.{Attempt, Run}
use engineering_platform.Session.{Checkpoint, Session, SteeringCommand}
use engineering_platform.Action.{Operation, risk_eq, state_eq}
use engineering_platform.Verification.{Plan}
use engineering_platform.Digests.{Hashing, input_digest}
use engineering_platform.Store.{Memory, new_memory}
use engineering_platform.Store.Works.{begin_recovery, complete_recovery, create_work, update_work}
use engineering_platform.Store.Tasks.{check_frozen, create_task, create_task_and_update_work}
use engineering_platform.Store.Executions.{
  create_checkpoint, create_execution, create_execution_and_update_work, record_steering,
  update_execution, update_execution_and_work,
}
use engineering_platform.Store.Operations.{create_operation, update_operation}
use engineering_platform.Store.Closures.{
  create_closure_and_update_work, create_delivery, create_evidence, create_review_and_update_work,
  create_verification,
}
use engineering_platform.Store.Commands.{
  Command, Reachable, after, apply, begin_recovery_command, complete_recovery_command,
  complete_run_command, create_checkpoint_command, create_closure_command, create_delivery_command,
  create_evidence_command, create_execution_command, create_operation_command,
  create_review_command, create_task_command, create_verification_command, create_work_command,
  freeze_task_command, record_steering_command, start, start_run_command, update_execution_command,
  update_operation_command, update_work_command,
}
use engineering_platform.Store.Commands.Atomic.{apply_failed, still-check_frozen, still-check_new}
use engineering_platform.Store.Frozen.{
  Checked, Frozen, Frozen-kept, KeptFrozen, enter_task-Frozen, input-Frozen,
}

module _ {S A : Type 0} (P : S → Type 0) (F : A → Type 0) (E : Error → S → Type 0) where
  learned-Post :
      (r : Result A) (s : S)
      → ((a : A) → r ≡ ok a → F a)
      → P s
      → ((e : Error) → E e s)
      → Post (λ a s. F a × P s) E r s
  learned-Post (ok a) s f p k = (f a refl, p)
  learned-Post (err e) s f p k = k e

module _ {S A : Type 0} {P : S → Type 0} {F : A → Type 0} {E : Error → S → Type 0} where
  -- A method that leaves the state as it is, and whose result says something.
  Triple-learn :
      {m : Exec S A}
      → ((s : S) → (m s).1 ≡ s)
      → ((a : A) (s : S) → (m s).0 ≡ ok a → F a)
      → ((e : Error) (s : S) → P s → E e s)
      → Triple P m (λ a s. F a × P s) E
  Triple-learn {m} still learn weaken = record {
    at = λ s p.
        let p' = subst P (sym (still s)) p in
        learned-Post P F E (m s).0 (m s).1 (λ a e. learn a s e) p' (λ e. weaken e (m s).1 p');
  }

module _ (h : Hashing) where
  check_frozen-Checked :
      (task : TaskContract) (plan : Plan) (digests : String × String) (m : Memory)
      → (check_frozen h task plan m).0 ≡ ok digests
      → Checked h task plan digests
  unfolding check_frozen ◌>>=◌
  check_frozen-Checked task plan digests m e =
      ground (arith, e, ==_iff digests.1 task.verification_plan_digest)

module _ (h : Hashing) (ctx : Context) (m : Memory) (frozen : Frozen h m) where
  unchanged : (e : Error) (s : Memory) → s ≡ m → Frozen h s
  unchanged e s u = subst (Frozen h) (sym u) frozen

  checked : {C : Type 0} (e : Error) (s : Memory) → C × (s ≡ m) → Frozen h s
  checked e s (c, u) = unchanged e s u

  create_task-Frozen : (task : TaskContract) (plan : Plan) → Frozen h (create_task h task plan m).1
  unfolding create_task
  create_task-Frozen task plan =
      Triple_after
        (Triple-bind
          (Triple-learn (still-check_frozen h task plan) (check_frozen-Checked h task plan)
            unchanged)
          λ digests.
            Triple-bind (Triple-still (still-check_new h task digests.0 digests.1) checked)
              λ versions. Triple-end λ s (c, u).
                enter_task-Frozen h task plan digests versions s c
                  (subst (Frozen h) (sym u) frozen))
        m refl

  freeze_task-Frozen :
      (task : TaskContract) (plan : Plan) (version : ℕ) (work : WorkItem)
      → Frozen h (create_task_and_update_work h ctx task plan version work m).1
  unfolding create_task_and_update_work
  freeze_task-Frozen task plan version work =
      Triple_after
        (Triple-bind (Triple-still (still-ctx_err ctx 0) unchanged) λ _.
          Triple-bind
            (Triple-learn (still-check_frozen h task plan) (check_frozen-Checked h task plan)
              unchanged)
            λ digests. Triple-bind (Triple-still (still-fail_if _ conflict) checked) λ _.
              Triple-bind (Triple-still (still-ctx_err ctx 1) checked) λ _.
                Triple-bind (Triple-still (still-find (λ m. m.works work.id) not_found) checked)
                  λ current.
                    Triple-bind
                      (Triple-still (still-fail_if (current.version != version) conflict) checked)
                      λ _. Triple-bind (Triple-still (still-fail_if _ conflict) checked) λ _.
                        Triple-bind (Triple-still (still-fail_if _ conflict) checked) λ _.
                          Triple-bind
                            (Triple-still (still-check_new h task digests.0 digests.1) checked)
                            λ versions. Triple-end λ s (c, u).
                              Frozen-kept h (refl, refl, refl)
                                (enter_task-Frozen h task plan digests versions s c
                                  (subst (Frozen h) (sym u) frozen)))
        m refl

  create_execution_done :
      (value : Run) (sess : Session) (input : RunInputManifest) (d : String)
      → input_digest h input ≡ ok d
      → is_ok (create_execution h value sess input m).0 ≡ true
      → let s = (create_execution h value sess input m).1 in
        (s.tasks_by_digest ≡ m.tasks_by_digest)
        × (s.verification_plans ≡ m.verification_plans)
        × (s.run_inputs ≡ insert d input m.run_inputs)
  unfolding create_execution ◌>>=◌
  create_execution_done value sess input d q e = ground arith

  create_execution_digest :
      (value : Run) (sess : Session) (input : RunInputManifest) (x : Error)
      → input_digest h input ≡ err x
      → is_ok (create_execution h value sess input m).0 ≡ false
  unfolding create_execution ◌>>=◌
  create_execution_digest value sess input x q = ground arith

  start_run_done :
      (value : Run) (attempt : Attempt) (sess : Session) (input : RunInputManifest) (version : ℕ)
      (work : WorkItem) (d : String)
      → input_digest h input ≡ ok d
      → is_ok (create_execution_and_update_work h ctx value attempt sess input version work m).0
        ≡ true
      → let s =
          (create_execution_and_update_work h ctx value attempt sess input version work m).1 in
        (s.tasks_by_digest ≡ m.tasks_by_digest)
        × (s.verification_plans ≡ m.verification_plans)
        × (s.run_inputs ≡ insert d input m.run_inputs)
  unfolding create_execution_and_update_work ◌>>=◌
  start_run_done value attempt sess input version work d q e = ground arith

  start_run_digest :
      (value : Run) (attempt : Attempt) (sess : Session) (input : RunInputManifest) (version : ℕ)
      (work : WorkItem) (x : Error)
      → input_digest h input ≡ err x
      → is_ok (create_execution_and_update_work h ctx value attempt sess input version work m).0
        ≡ false
  unfolding create_execution_and_update_work ◌>>=◌
  start_run_digest value attempt sess input version work x q = ground arith

  unless_failed :
      (c : Command)
      → (is_ok (apply h ctx c m).0 ≡ true → Frozen h (apply h ctx c m).1)
      → Frozen h (apply h ctx c m).1
  unless_failed c f = elim (Bool-cases (is_ok (apply h ctx c m).0)) [
    | inl t ↦ f t
    | inr n ↦ subst (Frozen h) (sym (apply_failed h ctx m c n)) frozen
  ]

  -- From a successful write of an input manifest, given what it wrote under each digest.
  input_written :
      (input : RunInputManifest) (r : Result (Unit {0})) (s : Memory)
      → ((d : String)
          → input_digest h input ≡ ok d
          → is_ok r ≡ true
          → (s.tasks_by_digest ≡ m.tasks_by_digest)
            × (s.verification_plans ≡ m.verification_plans)
            × (s.run_inputs ≡ insert d input m.run_inputs))
      → ((x : Error) → input_digest h input ≡ err x → is_ok r ≡ false)
      → is_ok r ≡ true
      → Frozen h s
  input_written input r s done refused t = elim (Result-cases (input_digest h input)) [
    | inl (x, q) ↦ absurd (false≢true (sym (refused x q) ∙ t))
    | inr (d, q) ↦ input-Frozen h input d m s q (done d q t) frozen
  ]

  begin_recovery-KeptFrozen : (epoch : ℕ) → KeptFrozen m (begin_recovery ctx epoch m).1
  unfolding begin_recovery ◌>>=◌
  begin_recovery-KeptFrozen epoch = ground arith

  complete_recovery-KeptFrozen :
      (epoch : ℕ) (reconciled : Bool) → KeptFrozen m (complete_recovery ctx epoch reconciled m).1
  unfolding complete_recovery complete ◌>>=◌
  complete_recovery-KeptFrozen epoch reconciled = ground arith

  create_work-KeptFrozen : (item : WorkItem) → KeptFrozen m (create_work ctx item m).1
  unfolding create_work ◌>>=◌
  create_work-KeptFrozen item = ground arith

  update_work-KeptFrozen :
      (id : String) (version : ℕ) (item : WorkItem)
      → KeptFrozen m (update_work ctx id version item m).1
  unfolding update_work ◌>>=◌
  update_work-KeptFrozen id version item = ground arith

  create_checkpoint-KeptFrozen :
      (item : Checkpoint) → KeptFrozen m (create_checkpoint h ctx item m).1
  unfolding create_checkpoint ◌>>=◌
  create_checkpoint-KeptFrozen item = ground arith

  update_execution-KeptFrozen :
      (id : String) (version : ℕ) (value : Run) (sess : Session)
      → KeptFrozen m (update_execution ctx id version value sess m).1
  unfolding update_execution ◌>>=◌
  update_execution-KeptFrozen id version value sess = ground arith

  record_steering-KeptFrozen :
      (id : String) (version : ℕ) (value : Run) (sess : Session) (cmd : SteeringCommand)
      → KeptFrozen m (record_steering ctx id version value sess cmd m).1
  unfolding record_steering ◌>>=◌
  record_steering-KeptFrozen id version value sess cmd = ground arith

  update_execution_and_work-KeptFrozen :
      (id : String) (version : ℕ) (value : Run) (sess : Session) (work_version : ℕ)
      (work : WorkItem)
      → KeptFrozen m (update_execution_and_work ctx id version value sess work_version work m).1
  unfolding update_execution_and_work ◌>>=◌
  update_execution_and_work-KeptFrozen id version value sess work_version work = ground arith

  create_operation-KeptFrozen : (op : Operation) → KeptFrozen m (create_operation ctx op m).1
  unfolding create_operation ◌>>=◌
  create_operation-KeptFrozen op = ground arith

  update_operation-KeptFrozen : (op : Operation) → KeptFrozen m (update_operation ctx op m).1
  unfolding update_operation ◌>>=◌
  update_operation-KeptFrozen op = ground arith

  create_delivery-KeptFrozen :
      (item : DeliveryReceipt) → KeptFrozen m (create_delivery ctx item m).1
  unfolding create_delivery ◌>>=◌
  create_delivery-KeptFrozen item = ground arith

  create_evidence-KeptFrozen : (item : EvidenceRef) → KeptFrozen m (create_evidence ctx item m).1
  unfolding create_evidence ◌>>=◌
  create_evidence-KeptFrozen item = ground arith

  create_verification-KeptFrozen :
      (report : Verification.Report) → KeptFrozen m (create_verification ctx report m).1
  unfolding create_verification ◌>>=◌
  create_verification-KeptFrozen report = ground arith

  create_review_and_update_work-KeptFrozen :
      (report : Review.Report) (version : ℕ) (work : WorkItem)
      → KeptFrozen m (create_review_and_update_work ctx report version work m).1
  unfolding create_review_and_update_work ◌>>=◌
  create_review_and_update_work-KeptFrozen report version work = ground arith

  create_closure_and_update_work-KeptFrozen :
      (item : ClosureReceipt) (version : ℕ) (work : WorkItem)
      → KeptFrozen m (create_closure_and_update_work ctx item version work m).1
  unfolding create_closure_and_update_work ◌>>=◌
  create_closure_and_update_work-KeptFrozen item version work = ground arith

  apply-Frozen : (c : Command) → Frozen h (apply h ctx c m).1
  unfolding apply
  apply-Frozen (create_task_command task plan) = create_task-Frozen task plan
  apply-Frozen (freeze_task_command task plan version work) =
      freeze_task-Frozen task plan version work
  apply-Frozen (begin_recovery_command epoch) =
      Frozen-kept h (begin_recovery-KeptFrozen epoch) frozen
  apply-Frozen (complete_recovery_command epoch reconciled) =
      Frozen-kept h (complete_recovery-KeptFrozen epoch reconciled) frozen
  apply-Frozen (create_work_command item) = Frozen-kept h (create_work-KeptFrozen item) frozen
  apply-Frozen (update_work_command id version item) =
      Frozen-kept h (update_work-KeptFrozen id version item) frozen
  apply-Frozen (create_execution_command value sess input) =
      unless_failed (create_execution_command value sess input) (
        input_written input _ _ (create_execution_done value sess input)
          (create_execution_digest value sess input))
  apply-Frozen (start_run_command value attempt sess input version work) =
      unless_failed (start_run_command value attempt sess input version work) (
        input_written input _ _ (start_run_done value attempt sess input version work)
          (start_run_digest value attempt sess input version work))
  apply-Frozen (create_checkpoint_command item) =
      Frozen-kept h (create_checkpoint-KeptFrozen item) frozen
  apply-Frozen (update_execution_command id version value sess) =
      Frozen-kept h (update_execution-KeptFrozen id version value sess) frozen
  apply-Frozen (record_steering_command id version value sess cmd) =
      Frozen-kept h (record_steering-KeptFrozen id version value sess cmd) frozen
  apply-Frozen (complete_run_command id version value sess work_version work) =
      Frozen-kept h (update_execution_and_work-KeptFrozen id version value sess work_version work)
        frozen
  apply-Frozen (create_operation_command op) = Frozen-kept h (create_operation-KeptFrozen op) frozen
  apply-Frozen (update_operation_command op) = Frozen-kept h (update_operation-KeptFrozen op) frozen
  apply-Frozen (create_delivery_command item) =
      Frozen-kept h (create_delivery-KeptFrozen item) frozen
  apply-Frozen (create_evidence_command item) =
      Frozen-kept h (create_evidence-KeptFrozen item) frozen
  apply-Frozen (create_verification_command report) =
      Frozen-kept h (create_verification-KeptFrozen report) frozen
  apply-Frozen (create_review_command report version work) =
      Frozen-kept h (create_review_and_update_work-KeptFrozen report version work) frozen
  apply-Frozen (create_closure_command item version work) =
      Frozen-kept h (create_closure_and_update_work-KeptFrozen item version work) frozen

-- In every store that the methods have led to, the task, the plan and the input manifest that stand
-- under a digest have that digest, and the verification plan that a task names is there.
pub Reachable-Frozen : (h : Hashing) {m : Memory} → Reachable h m → Frozen h m
unfolding new_memory
Reachable-Frozen h start = record {
  task_digest = λ d t e. ground (arith, e);
  plan_digest = λ d p e. ground (arith, e);
  task_plan = λ d t e. ground (arith, e);
  input_frozen = λ d i e. ground (arith, e);
}
Reachable-Frozen h (after {m} ctx c r) = apply-Frozen h ctx m (Reachable-Frozen h r) c
