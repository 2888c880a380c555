-- ===== src/Store/Trail/Always.antt =====
-- The trail holds in every store that the methods lead to.
use engineering_platform.Verification
use engineering_platform.Review
use mathlib.Core.Path.{subst}
use engineering_platform.Prelude.{
  ==_iff, Bool, Bool-cases, Context, Error, String, Triple-bind, Triple-end, Triple-still,
  Triple_after, arith, conflict, inl, inr, is_ok, nat_eq, not_found, refl, some, still-ctx_err,
  still-fail_if, still-find, string_eq, sym, true, ℕ, ◌!=◌, ◌<◌, ◌>>=◌, ◌∙◌, ◌≡◌, ◌≢◌, ◌⊎◌,
}
use engineering_platform.Core.{
  ClosureReceipt, DeliveryReceipt, EvidenceRef, RunInputManifest, TaskContract, WorkItem,
  work_state_eq,
}
use engineering_platform.Recovery.{complete}
use engineering_platform.Run.{Attempt, Run}
use engineering_platform.Session.{Checkpoint, Session, SteeringCommand}
use engineering_platform.Action.{Operation, risk_eq, state_eq}
use engineering_platform.Verification.{Plan}
use engineering_platform.Digests.{Hashing}
use engineering_platform.Store.{Memory, new_memory}
use engineering_platform.Store.Works.{begin_recovery, complete_recovery, create_work, update_work}
use engineering_platform.Store.Tasks.{create_task, create_task_and_update_work, enter_task}
use engineering_platform.Store.Executions.{
  create_checkpoint, create_execution, create_execution_and_update_work, record_steering,
  update_execution, update_execution_and_work,
}
use engineering_platform.Store.Operations.{create_operation, update_operation}
use engineering_platform.Store.Closures.{create_evidence}
use engineering_platform.Store.Commands.{
  Command, Reachable, after, apply, begin_recovery_command, complete_recovery_command,
  complete_run_command, create_checkpoint_command, create_closure_command, create_delivery_command,
  create_evidence_command, create_execution_command, create_operation_command,
  create_review_command, create_task_command, create_verification_command, create_work_command,
  freeze_task_command, record_steering_command, start, start_run_command, update_execution_command,
  update_operation_command, update_work_command,
}
use engineering_platform.Store.Commands.Atomic.{apply_failed, still-check_frozen, still-check_new}
use engineering_platform.Store.Trail.{Advances, Kept, Kept-Advances, Trail, Trail-advance}
use engineering_platform.Store.Trail.Accepted.{
  create_closure-Advances, create_delivery-Advances, create_review-Advances,
  create_verification-Advances,
}
use engineering_platform.Review.Acceptance.{blocking_of, validate_sound}

module _ (h : Hashing) (ctx : Context) (m : Memory) where
  kept : (s : Memory) → s ≡ m → Kept m s
  kept s e = rw e (refl, refl, refl, refl)

  Kept-still : (e : Error) (s : Memory) → s ≡ m → Kept m s
  Kept-still e s u = kept s u

  create_task-Kept : (task : TaskContract) (plan : Plan) → Kept m (create_task h task plan m).1
  unfolding create_task enter_task
  create_task-Kept task plan =
      Triple_after
        (Triple-bind (Triple-still (still-check_frozen h task plan) Kept-still) λ digests.
          Triple-bind (Triple-still (still-check_new h task digests.0 digests.1) Kept-still)
            λ versions. Triple-end (λ s u. rw u (refl, refl, refl, refl)))
        m refl

  freeze_task-Kept :
      (task : TaskContract) (plan : Plan) (version : ℕ) (work : WorkItem)
      → Kept m (create_task_and_update_work h ctx task plan version work m).1
  unfolding create_task_and_update_work enter_task
  freeze_task-Kept task plan version work =
      Triple_after
        (Triple-bind (Triple-still (still-ctx_err ctx 0) Kept-still) λ _.
          Triple-bind (Triple-still (still-check_frozen h task plan) Kept-still) λ digests.
            Triple-bind (Triple-still (still-fail_if _ conflict) Kept-still) λ _.
              Triple-bind (Triple-still (still-ctx_err ctx 1) Kept-still) λ _.
                Triple-bind (Triple-still (still-find (λ m. m.works work.id) not_found) Kept-still)
                  λ current.
                    Triple-bind
                      (Triple-still (still-fail_if (current.version != version) conflict)
                        Kept-still)
                      λ _. Triple-bind (Triple-still (still-fail_if _ conflict) Kept-still) λ _.
                        Triple-bind (Triple-still (still-fail_if _ conflict) Kept-still) λ _.
                          Triple-bind
                            (Triple-still (still-check_new h task digests.0 digests.1) Kept-still)
                            λ versions. Triple-end (λ s u. rw u (refl, refl, refl, refl)))
        m refl

  begin_recovery-Kept : (epoch : ℕ) → Kept m (begin_recovery ctx epoch m).1
  unfolding begin_recovery ◌>>=◌
  begin_recovery-Kept epoch = ground arith

  complete_recovery-Kept :
      (epoch : ℕ) (reconciled : Bool) → Kept m (complete_recovery ctx epoch reconciled m).1
  unfolding complete_recovery complete ◌>>=◌
  complete_recovery-Kept epoch reconciled = ground arith

  create_work-Kept : (item : WorkItem) → Kept m (create_work ctx item m).1
  unfolding create_work ◌>>=◌
  create_work-Kept item = ground arith

  update_work-Kept :
      (id : String) (version : ℕ) (item : WorkItem) → Kept m (update_work ctx id version item m).1
  unfolding update_work ◌>>=◌
  update_work-Kept id version item = ground arith

  create_execution-Kept :
      (value : Run) (sess : Session) (input : RunInputManifest)
      → Kept m (create_execution h value sess input m).1
  unfolding create_execution ◌>>=◌
  create_execution-Kept value sess input = ground arith

  create_execution_and_update_work-Kept :
      (value : Run) (attempt : Attempt) (sess : Session) (input : RunInputManifest) (version : ℕ)
      (work : WorkItem)
      → Kept m (create_execution_and_update_work h ctx value attempt sess input version work m).1
  unfolding create_execution_and_update_work ◌>>=◌
  create_execution_and_update_work-Kept value attempt sess input version work = ground arith

  create_checkpoint-Kept : (item : Checkpoint) → Kept m (create_checkpoint h ctx item m).1
  unfolding create_checkpoint ◌>>=◌
  create_checkpoint-Kept item = ground arith

  update_execution-Kept :
      (id : String) (version : ℕ) (value : Run) (sess : Session)
      → Kept m (update_execution ctx id version value sess m).1
  unfolding update_execution ◌>>=◌
  update_execution-Kept id version value sess = ground arith

  record_steering-Kept :
      (id : String) (version : ℕ) (value : Run) (sess : Session) (cmd : SteeringCommand)
      → Kept m (record_steering ctx id version value sess cmd m).1
  unfolding record_steering ◌>>=◌
  record_steering-Kept id version value sess cmd = ground arith

  update_execution_and_work-Kept :
      (id : String) (version : ℕ) (value : Run) (sess : Session) (work_version : ℕ)
      (work : WorkItem)
      → Kept m (update_execution_and_work ctx id version value sess work_version work m).1
  unfolding update_execution_and_work ◌>>=◌
  update_execution_and_work-Kept id version value sess work_version work = ground arith

  create_operation-Kept : (op : Operation) → Kept m (create_operation ctx op m).1
  unfolding create_operation ◌>>=◌
  create_operation-Kept op = ground arith

  update_operation-Kept : (op : Operation) → Kept m (update_operation ctx op m).1
  unfolding update_operation ◌>>=◌
  update_operation-Kept op = ground arith

  create_evidence-Kept : (item : EvidenceRef) → Kept m (create_evidence ctx item m).1
  unfolding create_evidence ◌>>=◌
  create_evidence-Kept item = ground arith

  advance_or_fail :
      (c : Command)
      → (is_ok (apply h ctx c m).0 ≡ true → Advances m (apply h ctx c m).1)
      → Advances m (apply h ctx c m).1
  advance_or_fail c f = elim (Bool-cases (is_ok (apply h ctx c m).0)) [
    | inl t ↦ f t
    | inr n ↦ Kept-Advances (kept (apply h ctx c m).1 (apply_failed h ctx m c n))
  ]

  -- Whatever method is called, and whether it fails or not, no delivery, verification, review or
  -- closure that the store holds is changed or removed. A review that is added agrees with a passed
  -- verification and a delivery that the store held, and a closure that is added with a passed
  -- review that the store held.
  pub apply-Advances : (c : Command) → Advances m (apply h ctx c m).1
  unfolding apply
  apply-Advances (create_task_command task plan) = Kept-Advances (create_task-Kept task plan)
  apply-Advances (freeze_task_command task plan version work) =
      Kept-Advances (freeze_task-Kept task plan version work)
  apply-Advances (begin_recovery_command epoch) = Kept-Advances (begin_recovery-Kept epoch)
  apply-Advances (complete_recovery_command epoch reconciled) =
      Kept-Advances (complete_recovery-Kept epoch reconciled)
  apply-Advances (create_work_command item) = Kept-Advances (create_work-Kept item)
  apply-Advances (update_work_command id version item) =
      Kept-Advances (update_work-Kept id version item)
  apply-Advances (create_execution_command value sess input) =
      Kept-Advances (create_execution-Kept value sess input)
  apply-Advances (start_run_command value attempt sess input version work) =
      Kept-Advances (create_execution_and_update_work-Kept value attempt sess input version work)
  apply-Advances (create_checkpoint_command item) = Kept-Advances (create_checkpoint-Kept item)
  apply-Advances (update_execution_command id version value sess) =
      Kept-Advances (update_execution-Kept id version value sess)
  apply-Advances (record_steering_command id version value sess cmd) =
      Kept-Advances (record_steering-Kept id version value sess cmd)
  apply-Advances (complete_run_command id version value sess work_version work) =
      Kept-Advances (update_execution_and_work-Kept id version value sess work_version work)
  apply-Advances (create_operation_command op) = Kept-Advances (create_operation-Kept op)
  apply-Advances (update_operation_command op) = Kept-Advances (update_operation-Kept op)
  apply-Advances (create_delivery_command item) =
      advance_or_fail (create_delivery_command item) λ e. create_delivery-Advances ctx m item e
  apply-Advances (create_evidence_command item) = Kept-Advances (create_evidence-Kept item)
  apply-Advances (create_verification_command report) =
      advance_or_fail (create_verification_command report)
        λ e. create_verification-Advances ctx m report e
  apply-Advances (create_review_command report version work) =
      advance_or_fail (create_review_command report version work)
        λ e. create_review-Advances ctx m version work report e
  apply-Advances (create_closure_command item version work) =
      advance_or_fail (create_closure_command item version work)
        λ e. create_closure-Advances ctx m version work item e

Reachable-Trail : (h : Hashing) {m : Memory} → Reachable h m → Trail m
unfolding new_memory
Reachable-Trail h start = record {
  reviews = λ key r e. ground (arith, e);
  closures = λ key c e. ground (arith, e);
}
Reachable-Trail h (after {m} ctx c r) =
    Trail-advance (apply-Advances h ctx m c) (Reachable-Trail h r)

abbrev pass : String
pass = "PASS"

abbrev fail : String
fail = "FAIL"

pass_is_not_fail : pass ≢ fail
pass_is_not_fail e = ground (arith, (==_iff pass fail).1 e)

passed_unblocked :
    (r : Review.Report)
    → r.result ≡ "PASS"
    → ((r.result ≡ "PASS") × (blocking_of r.findings ≡ 0))
      ⊎ ((r.result ≡ "FAIL") × (0 < blocking_of r.findings))
    → blocking_of r.findings ≡ 0
passed_unblocked r p (inl (q, n)) = n
passed_unblocked r p (inr (q, n)) = elim (pass_is_not_fail (sym p ∙ q)) [ ]

-- What stands behind a closure.
abbrev pub Behind : Memory → ClosureReceipt → Type 0
Behind m c =
    (r : Review.Report) × (v : Verification.Report) × (d : DeliveryReceipt) × (m.review_reports
        c.review_report_id
      ≡ some r)
    × (m.verification_reports c.verification_report_id ≡ some v)
    × (m.deliveries c.delivery_receipt_id ≡ some d)
    × (blocking_of r.findings ≡ 0)
    × (r.result ≡ "PASS")
    × (v.result ≡ "PASS")
    × (r.reviewer ≢ v.verifier)
    × (v.delivery_receipt_id ≡ d.id)
    × (v.subject_digest ≡ c.subject_digest)
    × (d.subject_digest ≡ c.subject_digest)
    × (d.task_contract_digest ≡ c.task_contract_digest)
    × (r.delivery_receipt_id ≡ c.delivery_receipt_id)
    × (r.verification_report_id ≡ c.verification_report_id)
    × (r.subject_digest ≡ c.subject_digest)
    × (r.task_contract_digest ≡ c.task_contract_digest)

-- Behind every closure of a store that the methods have led to there are a review, a verification
-- report and a delivery, stored under the identifiers that the closure names. The review names the
-- closure's delivery, verification, subject and task, and passed without a blocking finding; the
-- verification passed on that delivery and that subject; the delivery is of that subject and that
-- task; and the reviewer is not the verifier.
pub closure-Backed :
    (h : Hashing) {m : Memory} (key : String) (c : ClosureReceipt)
    → Reachable h m
    → m.closures key ≡ some c
    → Behind m c
closure-Backed h {m} key c reach e =
    let t = Reachable-Trail h reach in
    let (r, p, g) = t.closures key c e in
    let (v, d, q, u, a) = t.reviews c.review_report_id r p in
    let (l, f, ids, verdict) = validate_sound r a.admitted in
    (
      r,
      v,
      d,
      p,
      subst (λ k. m.verification_reports k ≡ some v) g.same_verification q,
      subst (λ k. m.deliveries k ≡ some d) g.same_delivery u,
      passed_unblocked r g.passed verdict,
      g.passed,
      a.verified,
      a.independent,
      a.verified_delivery,
      a.verified_subject ∙ sym a.reviewed_subject ∙ g.same_subject,
      sym a.reviewed_subject ∙ g.same_subject,
      sym a.reviewed_task ∙ g.same_task,
      g.same_delivery,
      g.same_verification,
      g.same_subject,
      g.same_task,
    )
