-- ===== src/Api/Closing.antt =====
-- From a closure back to the evidence: internal/api/server.go and internal/store/memory.go together.
use mathlib.Core.Path.{subst}
use engineering_platform.Verification
use engineering_platform.Prelude.{
  All, List, Option, Result, String, [], ap, arith, inl, inr, none, ok, some, sym, ◌∙◌, ◌≡◌, ◌≢◌,
  ◌⊎◌,
}
use engineering_platform.Core.{ClosureReceipt, DeliveryReceipt, EvidenceRef, TaskContract}
use engineering_platform.Digests.{Hashing}
use engineering_platform.Verification.{Plan}
use engineering_platform.Verification.Verdict.{Fulfilled, evaluate_exact}
use engineering_platform.Store.{Memory, new_memory}
use engineering_platform.Store.Commands.{Command, create_verification_command, start}
use engineering_platform.Store.Growth.{Added, apply-Grows}
use engineering_platform.Store.Trail.Always.{closure-Backed}
use engineering_platform.Api.{Net}
use engineering_platform.Api.Requests.{Relied, Request, serve_all, serve_all-Between}
use engineering_platform.Api.Traffic.{
  Between, Between-Reachable, Between-delivery, Between-Held, Evaluated, Held, Permitted, here,
  then_write,
}

-- Deliveries stand under their ids, and reports say what `Evaluate` found.
pub record Honest (h : Hashing) (m : Memory) : Type 0 where
  pub keyed : (key : String) (d : DeliveryReceipt) → m.deliveries key ≡ some d → d.id ≡ key
  pub evaluated :
      (key : String) (v : Verification.Report)
      → m.verification_reports key ≡ some v
      → Evaluated h m v

module _ (h : Hashing) where
  Evaluated-onward :
      {m s : Memory} (v : Verification.Report) → Between h m s → Evaluated h m v → Evaluated h s v
  Evaluated-onward v b e = record {
    key = e.key;
    delivery = e.delivery;
    task = e.task;
    plan = e.plan;
    items = e.items;
    delivered = Between-delivery e.key e.delivery b e.delivered;
    task_hashed = e.task_hashed;
    plan_hashed = e.plan_hashed;
    held = Between-Held e.items b e.held;
    same_delivery = e.same_delivery;
    same_verdict = e.same_verdict;
  }

  Added-Evaluated :
      (m : Memory) (c : Command) (v : Verification.Report)
      → Permitted h m c
      → Added c v
      → Evaluated h m v
  Added-Evaluated m (create_verification_command report) v p q = subst (Evaluated h m) (sym q) p
  Added-Evaluated m _ v p q = elim q [ ]

  settled : {A B C : Type 0} → A ⊎ B → (A → C) → (B → C) → C
  settled (inl a) f g = f a
  settled (inr b) f g = g b

  pub Between-Honest : {m : Memory} → Between h new_memory m → Honest h m
  unfolding new_memory
  Between-Honest here = record {
    keyed = λ key d e. ground (arith, e);
    evaluated = λ key v e. ground (arith, e);
  }
  Between-Honest (then_write {s} ctx c b p) =
      let before = Between-Honest b in
      let g = apply-Grows h ctx s c in
      let onward = then_write ctx c here p in
      record {
        keyed = λ key d e. settled (g.adds_delivery key d e) (before.keyed key d) (λ q. q);
        evaluated = λ key v e.
            Evaluated-onward v onward
              (settled (g.adds_report key v e) (before.evaluated key v) (Added-Evaluated s c v p));
      }

-- The evidence behind a closure.
pub record Evidenced (h : Hashing) (m : Memory) (c : ClosureReceipt) : Type 0 where
  pub delivery : DeliveryReceipt
  pub task : TaskContract
  pub plan : Plan
  pub items : List EvidenceRef
  pub delivered : m.deliveries c.delivery_receipt_id ≡ some delivery
  pub same_subject : delivery.subject_digest ≡ c.subject_digest
  pub task_hashed : h.hash_task task ≡ ok c.task_contract_digest
  pub plan_hashed : h.hash_plan plan ≡ ok task.verification_plan_digest
  pub held : All (Held m) items
  pub planned : plan.criteria ≢ []
  pub fulfilled : All (Fulfilled c.subject_digest items) plan.criteria

abbrev or_this : {A : Type 0} → A → Option A → A
or_this a none = a
or_this a (some b) = b

-- A delivery is found under one key only.
same_delivery :
    (h : Hashing) {m : Memory} (k l : String) (d e : DeliveryReceipt)
    → Honest h m
    → m.deliveries k ≡ some d
    → m.deliveries l ≡ some e
    → d.id ≡ e.id
    → d ≡ e
same_delivery h {m} k l d e hon p q r =
    let same_key : k ≡ l = sym (hon.keyed k d p) ∙ r ∙ hon.keyed l e q in
    ap (or_this d) (sym p ∙ ap m.deliveries same_key ∙ q)

Between-Evidenced :
    (h : Hashing) {m : Memory} (key : String) (c : ClosureReceipt)
    → Between h new_memory m
    → m.closures key ≡ some c
    → Evidenced h m c
Between-Evidenced h {m} key c b e =
    let hon = Between-Honest h b in
    let (r, v, d, _, pv, pd, _, _, passed, _, vd, _, ds, dt, _, _, _, _) =
      closure-Backed h key c (Between-Reachable start b) e in
    let ev = hon.evaluated c.verification_report_id v pv in
    let same : ev.delivery ≡ d =
      same_delivery h ev.key c.delivery_receipt_id ev.delivery d hon ev.delivered pd
        (sym ev.same_delivery ∙ vd) in
    let subject = ap (λ (x : DeliveryReceipt). x.subject_digest) same ∙ ds in
    let (_, planned, fulfilled) =
      (evaluate_exact ev.plan ev.delivery.subject_digest ev.items).0
        (sym ev.same_verdict ∙ passed) in
    record {
      delivery = d;
      task = ev.task;
      plan = ev.plan;
      items = ev.items;
      delivered = pd;
      same_subject = ds;
      task_hashed =
          ev.task_hashed ∙ ap ok (ap (λ (x : DeliveryReceipt). x.task_contract_digest) same ∙ dt);
      plan_hashed = ev.plan_hashed;
      held = ev.held;
      planned = planned;
      fulfilled = subst (λ x. All (Fulfilled x ev.items) ev.plan.criteria) subject fulfilled;
    }

-- In every store that the modelled requests lead to from the empty one, in any order and number, if
-- what others do between the calls of each is made of the store's methods, with verification reports
-- only for what `Evaluate` found, a closure has evidence. It stands in the store, and by it every
-- requirement of every criterion is met, on the subject that the closure names and the delivery has,
-- of a plan that has at least one criterion, whose digest stands in a task contract, whose digest the
-- closure names.
pub closure-Evidenced :
    (h : Hashing) (skill_digest : List String → Result String)
    (subject_digest : DeliveryReceipt → Result String) (served : List (Net × Request))
    (key : String) (c : ClosureReceipt)
    → All (λ p. Relied h p.0) served
    → (serve_all h skill_digest subject_digest served new_memory).closures key ≡ some c
    → Evidenced h (serve_all h skill_digest subject_digest served new_memory) c
closure-Evidenced h skill_digest subject_digest served key c rely e =
    Between-Evidenced h key c
      (serve_all-Between h skill_digest subject_digest served new_memory rely start) e
