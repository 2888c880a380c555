-- ===== src/Store/Pairs.antt =====
-- Runs and sessions stand side by side (memory.go).
use engineering_platform.Verification
use engineering_platform.Review
use mathlib.Core.Path.{subst}
use engineering_platform.Prelude.{
  Bool, Bool-cases, Context, Error, String, Triple-bind, Triple-end, Triple-still, Triple_after,
  arith, conflict, if◌then◌else◌, inl, inr, insert, is_ok, nat_eq, none, not_found, refl,
  still-ctx_err, still-fail_if, still-find, string_eq, sym, true, u64, ℕ, ◌!=◌, ◌+◌, ◌==◌, ◌>>=◌,
  ◌≡◌, ◌≢◌,
}
use engineering_platform.Core.{
  ClosureReceipt, DeliveryReceipt, EvidenceRef, RunInputManifest, TaskContract, WorkItem,
  work_state_eq,
}
use engineering_platform.Recovery.{complete}
use engineering_platform.Run.{Attempt, Run}
use engineering_platform.Session.{Checkpoint, Session, SteeringCommand}
use engineering_platform.Action.{Operation, risk_eq, state_eq}
use engineering_platform.Verification.{Plan}
use engineering_platform.Digests.{Hashing}
use engineering_platform.Store.{Memory, new_memory}
use engineering_platform.Store.Works.{begin_recovery, complete_recovery, create_work, update_work}
use engineering_platform.Store.Tasks.{create_task, create_task_and_update_work, enter_task}
use engineering_platform.Store.Executions.{
  create_checkpoint, create_execution, create_execution_and_update_work, record_steering,
  update_execution, update_execution_and_work,
}
use engineering_platform.Store.Operations.{create_operation, update_operation}
use engineering_platform.Store.Closures.{
  create_closure_and_update_work, create_delivery, create_evidence, create_review_and_update_work,
  create_verification,
}
use engineering_platform.Store.Commands.{
  Command, Reachable, after, apply, begin_recovery_command, complete_recovery_command,
  complete_run_command, create_checkpoint_command, create_closure_command, create_delivery_command,
  create_evidence_command, create_execution_command, create_operation_command,
  create_review_command, create_task_command, create_verification_command, create_work_command,
  freeze_task_command, record_steering_command, start, start_run_command, update_execution_command,
  update_operation_command, update_work_command,
}
use engineering_platform.Store.Commands.Atomic.{apply_failed, still-check_frozen, still-check_new}

-- A run has a session under its identifier, and a session a run.
pub record Paired (m : Memory) : Type 0 where
  pub run_session : (id : String) → m.runs id ≢ none → m.sessions id ≢ none
  pub session_run : (id : String) → m.sessions id ≢ none → m.runs id ≢ none

-- The two maps are as they were.
abbrev KeptPair : Memory → Memory → Type 0
KeptPair m s = (s.runs ≡ m.runs) × (s.sessions ≡ m.sessions)

-- A run and a session were written under the same identifier.
abbrev Written : String → Memory → Memory → Type 0
Written id m s =
    (v : Run) × (w : Session) × (s.runs ≡ insert id v m.runs)
    × (s.sessions ≡ insert id w m.sessions)

Paired-kept : {m s : Memory} → KeptPair m s → Paired m → Paired s
Paired-kept (a, b) p = record {
  run_session =
      λ id n. subst (λ f. f id ≢ none) (sym b) (p.run_session id (subst (λ f. f id ≢ none) a n));
  session_run =
      λ id n. subst (λ f. f id ≢ none) (sym a) (p.session_run id (subst (λ f. f id ≢ none) b n));
}

Paired-Written : (k : String) {m s : Memory} → Written k m s → Paired m → Paired s
Paired-Written k {m} (v, w, a, b) p =
    Paired-kept {m = record m { runs = insert k v m.runs; sessions = insert k w m.sessions }} (a, b)
      (record {
        run_session = λ id n. ground (arith, n, p.run_session id);
        session_run = λ id n. ground (arith, n, p.session_run id);
      })

module _ (h : Hashing) (ctx : Context) (m : Memory) (paired : Paired m) where
  kept_pair : (s : Memory) → s ≡ m → KeptPair m s
  kept_pair s e = rw e (refl, refl)

  same : (e : Error) (s : Memory) → s ≡ m → KeptPair m s
  same e s u = kept_pair s u

  create_task-KeptPair :
      (task : TaskContract) (plan : Plan) → KeptPair m (create_task h task plan m).1
  unfolding create_task enter_task
  create_task-KeptPair task plan =
      Triple_after
        (Triple-bind (Triple-still (still-check_frozen h task plan) same) λ digests.
          Triple-bind (Triple-still (still-check_new h task digests.0 digests.1) same)
            λ versions. Triple-end (λ s u. rw u (refl, refl)))
        m refl

  freeze_task-KeptPair :
      (task : TaskContract) (plan : Plan) (version : ℕ) (work : WorkItem)
      → KeptPair m (create_task_and_update_work h ctx task plan version work m).1
  unfolding create_task_and_update_work enter_task
  freeze_task-KeptPair task plan version work =
      Triple_after
        (Triple-bind (Triple-still (still-ctx_err ctx 0) same) λ _.
          Triple-bind (Triple-still (still-check_frozen h task plan) same) λ digests.
            Triple-bind (Triple-still (still-fail_if _ conflict) same) λ _.
              Triple-bind (Triple-still (still-ctx_err ctx 1) same) λ _.
                Triple-bind (Triple-still (still-find (λ m. m.works work.id) not_found) same)
                  λ current.
                    Triple-bind
                      (Triple-still (still-fail_if (current.version != version) conflict) same)
                      λ _. Triple-bind (Triple-still (still-fail_if _ conflict) same) λ _.
                        Triple-bind (Triple-still (still-fail_if _ conflict) same) λ _.
                          Triple-bind
                            (Triple-still (still-check_new h task digests.0 digests.1) same)
                            λ versions. Triple-end (λ s u. rw u (refl, refl)))
        m refl

  begin_recovery-KeptPair : (epoch : ℕ) → KeptPair m (begin_recovery ctx epoch m).1
  unfolding begin_recovery ◌>>=◌
  begin_recovery-KeptPair epoch = ground arith

  complete_recovery-KeptPair :
      (epoch : ℕ) (reconciled : Bool) → KeptPair m (complete_recovery ctx epoch reconciled m).1
  unfolding complete_recovery complete ◌>>=◌
  complete_recovery-KeptPair epoch reconciled = ground arith

  create_work-KeptPair : (item : WorkItem) → KeptPair m (create_work ctx item m).1
  unfolding create_work ◌>>=◌
  create_work-KeptPair item = ground arith

  update_work-KeptPair :
      (id : String) (version : ℕ) (item : WorkItem)
      → KeptPair m (update_work ctx id version item m).1
  unfolding update_work ◌>>=◌
  update_work-KeptPair id version item = ground arith

  create_execution-Written :
      (value : Run) (sess : Session) (input : RunInputManifest)
      → is_ok (create_execution h value sess input m).0 ≡ true
      → ((create_execution h value sess input m).1.runs
          ≡ insert value.id
              (record value { version = if value.version == 0 then 1 else value.version })
              m.runs)
        × ((create_execution h value sess input m).1.sessions ≡ insert value.id sess m.sessions)
  unfolding create_execution ◌>>=◌
  create_execution-Written value sess input e = ground arith

  create_execution_and_update_work-Written :
      (value : Run) (attempt : Attempt) (sess : Session) (input : RunInputManifest) (version : ℕ)
      (work : WorkItem)
      → is_ok (create_execution_and_update_work h ctx value attempt sess input version work m).0
        ≡ true
      → ((create_execution_and_update_work h ctx value attempt sess input version work m).1.runs
          ≡ insert value.id
              (record value { version = if value.version == 0 then 1 else value.version })
              m.runs)
        × ((create_execution_and_update_work h ctx value attempt sess input version work
              m).1.sessions
            ≡ insert value.id sess m.sessions)
  unfolding create_execution_and_update_work ◌>>=◌
  create_execution_and_update_work-Written value attempt sess input version work e = ground arith

  create_checkpoint-KeptPair : (item : Checkpoint) → KeptPair m (create_checkpoint h ctx item m).1
  unfolding create_checkpoint ◌>>=◌
  create_checkpoint-KeptPair item = ground arith

  update_execution-Written :
      (id : String) (version : ℕ) (value : Run) (sess : Session)
      → is_ok (update_execution ctx id version value sess m).0 ≡ true
      → ((update_execution ctx id version value sess m).1.runs
          ≡ insert id (record value { version = u64 (version + 1) }) m.runs)
        × ((update_execution ctx id version value sess m).1.sessions ≡ insert id sess m.sessions)
  unfolding update_execution ◌>>=◌
  update_execution-Written id version value sess e = ground arith

  record_steering-Written :
      (id : String) (version : ℕ) (value : Run) (sess : Session) (cmd : SteeringCommand)
      → is_ok (record_steering ctx id version value sess cmd m).0 ≡ true
      → ((record_steering ctx id version value sess cmd m).1.runs
          ≡ insert id (record value { version = u64 (version + 1) }) m.runs)
        × ((record_steering ctx id version value sess cmd m).1.sessions ≡ insert id sess m.sessions)
  unfolding record_steering ◌>>=◌
  record_steering-Written id version value sess cmd e = ground arith

  update_execution_and_work-Written :
      (id : String) (version : ℕ) (value : Run) (sess : Session) (work_version : ℕ)
      (work : WorkItem)
      → is_ok (update_execution_and_work ctx id version value sess work_version work m).0 ≡ true
      → ((update_execution_and_work ctx id version value sess work_version work m).1.runs
          ≡ insert id (record value { version = u64 (version + 1) }) m.runs)
        × ((update_execution_and_work ctx id version value sess work_version work m).1.sessions
            ≡ insert id sess m.sessions)
  unfolding update_execution_and_work ◌>>=◌
  update_execution_and_work-Written id version value sess work_version work e = ground arith

  create_operation-KeptPair : (op : Operation) → KeptPair m (create_operation ctx op m).1
  unfolding create_operation ◌>>=◌
  create_operation-KeptPair op = ground arith

  update_operation-KeptPair : (op : Operation) → KeptPair m (update_operation ctx op m).1
  unfolding update_operation ◌>>=◌
  update_operation-KeptPair op = ground arith

  create_delivery-KeptPair : (item : DeliveryReceipt) → KeptPair m (create_delivery ctx item m).1
  unfolding create_delivery ◌>>=◌
  create_delivery-KeptPair item = ground arith

  create_evidence-KeptPair : (item : EvidenceRef) → KeptPair m (create_evidence ctx item m).1
  unfolding create_evidence ◌>>=◌
  create_evidence-KeptPair item = ground arith

  create_verification-KeptPair :
      (report : Verification.Report) → KeptPair m (create_verification ctx report m).1
  unfolding create_verification ◌>>=◌
  create_verification-KeptPair report = ground arith

  create_review_and_update_work-KeptPair :
      (report : Review.Report) (version : ℕ) (work : WorkItem)
      → KeptPair m (create_review_and_update_work ctx report version work m).1
  unfolding create_review_and_update_work ◌>>=◌
  create_review_and_update_work-KeptPair report version work = ground arith

  create_closure_and_update_work-KeptPair :
      (item : ClosureReceipt) (version : ℕ) (work : WorkItem)
      → KeptPair m (create_closure_and_update_work ctx item version work m).1
  unfolding create_closure_and_update_work ◌>>=◌
  create_closure_and_update_work-KeptPair item version work = ground arith

  unless_failed :
      (c : Command)
      → (is_ok (apply h ctx c m).0 ≡ true → Paired (apply h ctx c m).1)
      → Paired (apply h ctx c m).1
  unless_failed c f = elim (Bool-cases (is_ok (apply h ctx c m).0)) [
    | inl t ↦ f t
    | inr n ↦ subst Paired (sym (apply_failed h ctx m c n)) paired
  ]

  apply-Paired : (c : Command) → Paired (apply h ctx c m).1
  unfolding apply
  apply-Paired (create_task_command task plan) = Paired-kept (create_task-KeptPair task plan) paired
  apply-Paired (freeze_task_command task plan version work) =
      Paired-kept (freeze_task-KeptPair task plan version work) paired
  apply-Paired (begin_recovery_command epoch) = Paired-kept (begin_recovery-KeptPair epoch) paired
  apply-Paired (complete_recovery_command epoch reconciled) =
      Paired-kept (complete_recovery-KeptPair epoch reconciled) paired
  apply-Paired (create_work_command item) = Paired-kept (create_work-KeptPair item) paired
  apply-Paired (update_work_command id version item) =
      Paired-kept (update_work-KeptPair id version item) paired
  apply-Paired (create_execution_command value sess input) =
      unless_failed (create_execution_command value sess input) λ e.
        let q = create_execution-Written value sess input e in
        Paired-Written (value.id) (_, _, q.0, q.1) paired
  apply-Paired (start_run_command value attempt sess input version work) =
      unless_failed (start_run_command value attempt sess input version work) λ e.
        let q = create_execution_and_update_work-Written value attempt sess input version work e in
        Paired-Written (value.id) (_, _, q.0, q.1) paired
  apply-Paired (create_checkpoint_command item) =
      Paired-kept (create_checkpoint-KeptPair item) paired
  apply-Paired (update_execution_command id version value sess) =
      unless_failed (update_execution_command id version value sess) λ e.
        let q = update_execution-Written id version value sess e in
        Paired-Written (id) (_, _, q.0, q.1) paired
  apply-Paired (record_steering_command id version value sess cmd) =
      unless_failed (record_steering_command id version value sess cmd) λ e.
        let q = record_steering-Written id version value sess cmd e in
        Paired-Written (id) (_, _, q.0, q.1) paired
  apply-Paired (complete_run_command id version value sess work_version work) =
      unless_failed (complete_run_command id version value sess work_version work) λ e.
        let q = update_execution_and_work-Written id version value sess work_version work e in
        Paired-Written (id) (_, _, q.0, q.1) paired
  apply-Paired (create_operation_command op) = Paired-kept (create_operation-KeptPair op) paired
  apply-Paired (update_operation_command op) = Paired-kept (update_operation-KeptPair op) paired
  apply-Paired (create_delivery_command item) = Paired-kept (create_delivery-KeptPair item) paired
  apply-Paired (create_evidence_command item) = Paired-kept (create_evidence-KeptPair item) paired
  apply-Paired (create_verification_command report) =
      Paired-kept (create_verification-KeptPair report) paired
  apply-Paired (create_review_command report version work) =
      Paired-kept (create_review_and_update_work-KeptPair report version work) paired
  apply-Paired (create_closure_command item version work) =
      Paired-kept (create_closure_and_update_work-KeptPair item version work) paired

-- In every store that the methods have led to, a run and a session always stand under the same
-- identifiers, so that neither is ever without the other.
pub Reachable-Paired : (h : Hashing) {m : Memory} → Reachable h m → Paired m
unfolding new_memory
Reachable-Paired h start = record {
  run_session = λ id n. elim (n refl) [ ];
  session_run = λ id n. elim (n refl) [ ];
}
Reachable-Paired h (after {m} ctx c r) = apply-Paired h ctx m (Reachable-Paired h r) c
