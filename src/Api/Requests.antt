-- ===== src/Api/Requests.antt =====
-- The routes of the server (`routes` of internal/api/server.go) for work, tasks, runs, checkpoints,
-- deliveries, evidence, verification, review, closure and recovery: 26 of them.
use engineering_platform.Prelude.{All, List, Result, String, [], ℕ, ◌∷◌}
use engineering_platform.Core.{DeliveryReceipt, EvidenceRef, WorkItem}
use engineering_platform.Digests.{Hashing}
use engineering_platform.Store.{Memory}
use engineering_platform.Store.Commands.{Reachable}
use engineering_platform.Api.{Net}
use engineering_platform.Api.Works.{
  CreateTaskRequest, handle_create_task, handle_create_work, handle_get_task, handle_get_work,
}
use engineering_platform.Api.Runs.{
  CreateCheckpointRequest, CreateRunRequest, handle_complete_run, handle_create_checkpoint,
  handle_create_run, handle_get_checkpoint, handle_get_run, handle_get_steering, handle_pause,
  handle_resume, handle_takeover,
}
use engineering_platform.Api.Deliveries.{
  CreateDeliveryRequest, handle_create_delivery, handle_create_evidence, handle_create_verification,
  handle_get_delivery, handle_get_evidence, handle_get_verification,
}
use engineering_platform.Api.Reviews.{
  CreateClosureRequest, CreateReviewRequest, handle_create_closure, handle_create_review,
  handle_get_closure, handle_get_review,
}
use engineering_platform.Api.Recoveries.{
  handle_begin_recovery, handle_complete_recovery, handle_get_recovery,
}
use engineering_platform.Api.Traffic.{Between, Between-Reachable, Between-trans, here}
use engineering_platform.Api.Traffic.Handlers.{
  handle_begin_recovery-Keeps, handle_complete_recovery-Keeps, handle_complete_run-Keeps,
  handle_create_checkpoint-Keeps, handle_create_closure-Keeps, handle_create_delivery-Keeps,
  handle_create_evidence-Keeps, handle_create_review-Keeps, handle_create_run-Keeps,
  handle_create_task-Keeps, handle_create_work-Keeps, handle_get_checkpoint-Keeps,
  handle_get_closure-Keeps, handle_get_delivery-Keeps, handle_get_evidence-Keeps,
  handle_get_recovery-Keeps, handle_get_review-Keeps, handle_get_run-Keeps,
  handle_get_steering-Keeps, handle_get_task-Keeps, handle_get_verification-Keeps,
  handle_get_work-Keeps, handle_pause-Keeps, handle_resume-Keeps, handle_takeover-Keeps,
}
use engineering_platform.Api.Traffic.Verdicts.{handle_create_verification-Keeps}

-- A decoded request of one of the 26 routes. Those that are missing are capabilities, operational
-- status, recovery proofs and abandonment, reads by digest, steering and interruption, actions,
-- workers, Codex and offline.
pub data Request : Type 0 where
  get_work_request : String → Request
  create_work_request : WorkItem → Request
  create_task_request : CreateTaskRequest → Request
  get_task_request : String → Request
  create_run_request : CreateRunRequest → Request
  get_run_request : String → Request
  pause_request : String → ℕ → Request
  resume_request : String → ℕ → Request
  takeover_request : String → ℕ → Request
  get_steering_request : String → Request
  create_checkpoint_request : String → CreateCheckpointRequest → Request
  get_checkpoint_request : String → Request
  complete_run_request : String → ℕ → Request
  create_delivery_request : CreateDeliveryRequest → Request
  get_delivery_request : String → Request
  create_evidence_request : String → EvidenceRef → Request
  get_evidence_request : String → Request
  create_verification_request : String → String → String → List String → Request
  get_verification_request : String → Request
  create_review_request : CreateReviewRequest → Request
  get_review_request : String → Request
  create_closure_request : CreateClosureRequest → Request
  get_closure_request : String → Request
  get_recovery_request : Request
  begin_recovery_request : ℕ → Request
  complete_recovery_request : ℕ → Request

module _ (h : Hashing) (net : Net) (skill_digest : List String → Result String)
    (subject_digest : DeliveryReceipt → Result String) where
  -- The store when a request has been answered.
  unfoldable pub serve : Request → Memory → Memory
  serve (get_work_request id) m = (handle_get_work h net id m).1
  serve (create_work_request item) m = (handle_create_work h net item m).1
  serve (create_task_request req) m = (handle_create_task h net skill_digest req m).1
  serve (get_task_request id) m = (handle_get_task h net id m).1
  serve (create_run_request req) m = (handle_create_run h net req m).1
  serve (get_run_request id) m = (handle_get_run h net id m).1
  serve (pause_request id epoch) m = (handle_pause h net id epoch m).1
  serve (resume_request id epoch) m = (handle_resume h net id epoch m).1
  serve (takeover_request id epoch) m = (handle_takeover h net id epoch m).1
  serve (get_steering_request id) m = (handle_get_steering h net id m).1
  serve (create_checkpoint_request run_id req) m = (handle_create_checkpoint h net run_id req m).1
  serve (get_checkpoint_request id) m = (handle_get_checkpoint h net id m).1
  serve (complete_run_request run_id epoch) m = (handle_complete_run h net run_id epoch m).1
  serve (create_delivery_request req) m = (handle_create_delivery net subject_digest req m).1
  serve (get_delivery_request id) m = (handle_get_delivery net id m).1
  serve (create_evidence_request delivery_id given) m =
      (handle_create_evidence net delivery_id given m).1
  serve (get_evidence_request id) m = (handle_get_evidence net id m).1
  serve (create_verification_request report_id delivery_id verifier evidence_ids) m =
      (handle_create_verification net report_id delivery_id verifier evidence_ids m).1
  serve (get_verification_request id) m = (handle_get_verification net id m).1
  serve (create_review_request req) m = (handle_create_review net req m).1
  serve (get_review_request id) m = (handle_get_review net id m).1
  serve (create_closure_request req) m = (handle_create_closure net req m).1
  serve (get_closure_request id) m = (handle_get_closure net id m).1
  serve get_recovery_request m = (handle_get_recovery net m).1
  serve (begin_recovery_request expected_epoch) m = (handle_begin_recovery net expected_epoch m).1
  serve (complete_recovery_request epoch) m = (handle_complete_recovery net epoch m).1

module _ (h : Hashing) (net : Net) (skill_digest : List String → Result String)
    (subject_digest : DeliveryReceipt → Result String)
    (rely : (n : ℕ) (m : Memory) → Reachable h m → Between h m (net.traffic n m)) where
  pub serve-Between :
      (req : Request) (m : Memory)
      → Reachable h m
      → Between h m (serve h net skill_digest subject_digest req m)
  unfolding serve
  serve-Between (get_work_request id) m r = (handle_get_work-Keeps h net rely id).at m r tt
  serve-Between (create_work_request item) m r =
      (handle_create_work-Keeps h net rely item).at m r tt
  serve-Between (create_task_request req) m r =
      (handle_create_task-Keeps h net rely skill_digest req).at m r tt
  serve-Between (get_task_request id) m r = (handle_get_task-Keeps h net rely id).at m r tt
  serve-Between (create_run_request req) m r = (handle_create_run-Keeps h net rely req).at m r tt
  serve-Between (get_run_request id) m r = (handle_get_run-Keeps h net rely id).at m r tt
  serve-Between (pause_request id epoch) m r = (handle_pause-Keeps h net rely id epoch).at m r tt
  serve-Between (resume_request id epoch) m r = (handle_resume-Keeps h net rely id epoch).at m r tt
  serve-Between (takeover_request id epoch) m r =
      (handle_takeover-Keeps h net rely id epoch).at m r tt
  serve-Between (get_steering_request id) m r = (handle_get_steering-Keeps h net rely id).at m r tt
  serve-Between (create_checkpoint_request run_id req) m r =
      (handle_create_checkpoint-Keeps h net rely run_id req).at m r tt
  serve-Between (get_checkpoint_request id) m r =
      (handle_get_checkpoint-Keeps h net rely id).at m r tt
  serve-Between (complete_run_request run_id epoch) m r =
      (handle_complete_run-Keeps h net rely run_id epoch).at m r tt
  serve-Between (create_delivery_request req) m r =
      (handle_create_delivery-Keeps h net rely subject_digest req).at m r tt
  serve-Between (get_delivery_request id) m r = (handle_get_delivery-Keeps h net rely id).at m r tt
  serve-Between (create_evidence_request delivery_id given) m r =
      (handle_create_evidence-Keeps h net rely delivery_id given).at m r tt
  serve-Between (get_evidence_request id) m r = (handle_get_evidence-Keeps h net rely id).at m r tt
  serve-Between (create_verification_request report_id delivery_id verifier evidence_ids) m r =
      (handle_create_verification-Keeps h net rely report_id delivery_id verifier evidence_ids).at m
        r tt
  serve-Between (get_verification_request id) m r =
      (handle_get_verification-Keeps h net rely id).at m r tt
  serve-Between (create_review_request req) m r =
      (handle_create_review-Keeps h net rely req).at m r tt
  serve-Between (get_review_request id) m r = (handle_get_review-Keeps h net rely id).at m r tt
  serve-Between (create_closure_request req) m r =
      (handle_create_closure-Keeps h net rely req).at m r tt
  serve-Between (get_closure_request id) m r = (handle_get_closure-Keeps h net rely id).at m r tt
  serve-Between get_recovery_request m r = (handle_get_recovery-Keeps h net rely).at m r tt
  serve-Between (begin_recovery_request expected_epoch) m r =
      (handle_begin_recovery-Keeps h net rely expected_epoch).at m r tt
  serve-Between (complete_recovery_request epoch) m r =
      (handle_complete_recovery-Keeps h net rely epoch).at m r tt

-- What others do between a request's calls is made of the store's methods, with verification reports
-- only for what `Evaluate` found.
abbrev pub Relied : Hashing → Net → Type 0
Relied h net = (n : ℕ) (m : Memory) → Reachable h m → Between h m (net.traffic n m)

module _ (h : Hashing) (skill_digest : List String → Result String)
    (subject_digest : DeliveryReceipt → Result String) where
  -- The requests are answered in this order, each between the traffic of a net of its own.
  abbrev pub serve_all : List (Net × Request) → Memory → Memory
  serve_all [] m = m
  serve_all ((net, req) ∷ rest) m = serve_all rest (serve h net skill_digest subject_digest req m)

  pub serve_all-Between :
      (served : List (Net × Request)) (m : Memory)
      → All (λ p. Relied h p.0) served
      → Reachable h m
      → Between h m (serve_all served m)
  serve_all-Between [] m rely r = here
  serve_all-Between ((net, req) ∷ rest) m (rely, relied) r =
      let b = serve-Between h net skill_digest subject_digest rely req m r in
      Between-trans b (serve_all-Between rest _ relied (Between-Reachable r b))
