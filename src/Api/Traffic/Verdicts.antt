-- ===== src/Api/Traffic/Verdicts.antt =====
-- handleCreateVerification (internal/api/server.go) writes what `Evaluate` found.
use engineering_platform.Prelude.{All, List, String, [], ok, refl, some, ℕ, ◌+◌, ◌∷◌, ◌≡◌}
use engineering_platform.Core.{DeliveryReceipt, EvidenceRef}
use engineering_platform.Digests.{Hashing}
use engineering_platform.Store.{Memory}
use engineering_platform.Store.Frozen.Always.{Reachable-Frozen}
use engineering_platform.Store.Closures.{get_delivery, get_evidence}
use engineering_platform.Store.Tasks.{get_task_by_digest, get_verification_plan_by_digest}
use engineering_platform.Store.Commands.{Reachable}
use engineering_platform.Api.{Net, store_error}
use engineering_platform.Api.Deliveries.{handle_create_verification, read_evidence}
use engineering_platform.Api.Traffic.{
  Between, Between-delivery, Between-evidence, Between-Held, Held,
}
use engineering_platform.Api.Traffic.Rules.{
  Anything, Anything-Stable, Keeps, Keeps-answer, Keeps-bind, Keeps-call, Keeps-refuse_if, Stable,
}
use engineering_platform.Api.Traffic.Methods.{
  create_verification-Writes, get_delivery-Reads, get_evidence-Reads, get_task_by_digest-Reads,
  get_verification_plan_by_digest-Reads,
}
use engineering_platform.Api.Traffic.Learning.{
  Keeps-learn, Learns, Learns-bind, Learns-call, Learns-pure, Stable-both,
}

module _ (h : Hashing) where
  abbrev Delivered : String → DeliveryReceipt → Memory → Type 0
  Delivered key d m = m.deliveries key ≡ some d

  Delivered-Stable : (key : String) (d : DeliveryReceipt) → Stable h (Delivered key d)
  Delivered-Stable key d = record { onward = λ b e. Between-delivery key d b e }

  Holding-Stable : (items : List EvidenceRef) → Stable h (λ m. All (Held m) items)
  Holding-Stable items = record { onward = λ b e. Between-Held items b e }

  Held-Stable : (item : EvidenceRef) → Stable h (λ m. Held m item)
  Held-Stable item = record { onward = λ b (key, e). (key, Between-evidence key item b e) }

  -- What does not depend on the store.
  Constant-Stable : (A : Type 0) → Stable h (λ m. A)
  Constant-Stable A = record { onward = λ b a. a }

module _ (h : Hashing) (net : Net)
    (rely : (n : ℕ) (m : Memory) → Reachable h m → Between h m (net.traffic n m)) where
  read_evidence-Learns :
      {P : Memory → Type 0} (n : ℕ) (ids : List String)
      → Stable h P
      → Learns h P (read_evidence net n ids) (λ items m. All (Held m) items)
  unfolding read_evidence
  read_evidence-Learns n [] stable = Learns-pure [] (λ m p. tt)
  read_evidence-Learns n (id ∷ ids) stable =
      Learns-bind _ _ stable
        (Learns-call h net rely n store_error (λ ctx. get_evidence ctx id) stable
          (get_evidence-Reads id) (λ a m r e. (id, e)))
        λ item.
          let s = Stable-both stable (Held-Stable h item) in
          Learns-bind _ _ s (read_evidence-Learns (n + 1) ids s)
            λ items. Learns-pure (item ∷ items) (λ m ((p, e), es). (e, es))

  pub handle_create_verification-Keeps :
      (report_id delivery_id verifier : String) (evidence_ids : List String)
      → Keeps h Anything
          (handle_create_verification net report_id delivery_id verifier evidence_ids)
  unfolding handle_create_verification
  handle_create_verification-Keeps report_id delivery_id verifier evidence_ids =
      let s = Anything-Stable h in
      Keeps-bind _ s (Keeps-refuse_if _ _ _) λ _.
        Keeps-learn _ _ s
          (Learns-call h net rely 0 store_error (λ ctx. get_delivery ctx delivery_id) s
            (get_delivery-Reads delivery_id) (λ a m r e. e))
          λ delivery.
            let s = Stable-both s (Delivered-Stable h delivery_id delivery) in
            Keeps-learn _ _ s
              (Learns-call h net rely 1 store_error
                (λ ctx. get_task_by_digest ctx delivery.task_contract_digest) s
                (get_task_by_digest-Reads delivery.task_contract_digest)
                (λ task m r e.
                  (Reachable-Frozen h r).task_digest delivery.task_contract_digest task e))
              λ task.
                let s =
                  Stable-both s
                    (Constant-Stable h (h.hash_task task ≡ ok delivery.task_contract_digest)) in
                Keeps-learn _ _ s
                  (Learns-call h net rely 2 store_error
                    (λ ctx. get_verification_plan_by_digest ctx task.verification_plan_digest) s
                    (get_verification_plan_by_digest-Reads task.verification_plan_digest)
                    (λ plan m r e.
                      (Reachable-Frozen h r).plan_digest task.verification_plan_digest plan e))
                  λ plan.
                    let s =
                      Stable-both s
                        (Constant-Stable h (h.hash_plan plan ≡ ok task.verification_plan_digest)) in
                    Keeps-learn _ _ s (read_evidence-Learns 3 evidence_ids s) λ items.
                      let s = Stable-both s (Holding-Stable h items) in
                      Keeps-bind _ s
                        (Keeps-call h net rely _ _ _ s (
                          create_verification-Writes h _ λ m ((((_, d), t), p), es). record {
                            key = delivery_id;
                            delivery = delivery;
                            task = task;
                            plan = plan;
                            items = items;
                            delivered = d;
                            task_hashed = t;
                            plan_hashed = p;
                            held = es;
                            same_delivery = refl;
                            same_verdict = refl;
                          }))
                        λ _. Keeps-answer _ _
