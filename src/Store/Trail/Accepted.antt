-- ===== src/Store/Trail/Accepted.antt =====
-- The methods that accept a delivery, a verification, a review or a closure advance the trail.
use engineering_platform.Verification
use engineering_platform.Review
use mathlib.Core.Path.{subst}
use engineering_platform.Prelude.{
  ==_iff, Bool, Context, Map, Option, Option-cases, String, arith, false, if◌then◌else◌, inl, inr,
  insert, is_ok, nat_eq, none, some, string_eq, true, u64, ℕ, ◌+◌, ◌==◌, ◌>>=◌, ◌≡◌, ◌≢◌, ◌⊎◌,
}
use engineering_platform.Core.{ClosureReceipt, DeliveryReceipt, WorkItem, work_state_eq}
use engineering_platform.Action.{risk_eq, state_eq}
use engineering_platform.Store.{Memory}
use engineering_platform.Store.Closures.{
  closure_conflict, create_closure_and_update_work, create_delivery, create_review_and_update_work,
  create_verification, review_conflict,
}
use engineering_platform.Store.Trail.{
  Advances, ClosureAgrees, ClosureBacked, ReviewAgrees, ReviewBacked,
}

if_added :
    {A : Type 0} (t : Bool) (a b : A) (o : Option A) (P : A → Type 0)
    → P a
    → (if t then some a else o) ≡ some b
    → (o ≡ some b) ⊎ P b
if_added true a b o P p e = inr (subst P (ground (arith, e)) p)
if_added false a b o P p e = inl e

-- What an insertion adds has the property, if the value inserted has it.
insert-added :
    {A : Type 0} (k key : String) (a b : A) (f : Map String A) (P : A → Type 0)
    → P a
    → insert k a f key ≡ some b
    → (f key ≡ some b) ⊎ P b
insert-added k key a b f P p q = if_added (k == key) a b (f key) P p q

review_conflict_free :
    (r : Review.Report) (n : ℕ) (w : WorkItem) (v : Verification.Report) (d : DeliveryReceipt)
    (current : WorkItem)
    → review_conflict r n w v d current ≡ false
    → Review.validate r ≡ none
    → ReviewAgrees r v d
unfolding review_conflict
review_conflict_free r n w v d current h a = record {
  admitted = a;
  verified = ground (arith, h, ==_iff v.result "PASS");
  verified_delivery = ground (arith, h, ==_iff v.delivery_receipt_id d.id);
  verified_subject = ground (arith, h, ==_iff v.subject_digest d.subject_digest);
  reviewed_subject = ground (arith, h, ==_iff r.subject_digest d.subject_digest);
  reviewed_task = ground (arith, h, ==_iff r.task_contract_digest d.task_contract_digest);
  independent = ground (arith, h, ==_iff r.reviewer v.verifier);
}

closure_conflict_free :
    (c : ClosureReceipt) (n : ℕ) (w : WorkItem) (r : Review.Report) (current : WorkItem)
    → closure_conflict c n w r current ≡ false
    → ClosureAgrees c r
unfolding closure_conflict
closure_conflict_free c n w r current h = record {
  passed = ground (arith, h, ==_iff r.result "PASS");
  same_delivery = ground (arith, h, ==_iff r.delivery_receipt_id c.delivery_receipt_id);
  same_verification = ground (arith, h, ==_iff r.verification_report_id c.verification_report_id);
  same_task = ground (arith, h, ==_iff r.task_contract_digest c.task_contract_digest);
  same_subject = ground (arith, h, ==_iff r.subject_digest c.subject_digest);
}

module _ (ctx : Context) (m : Memory) where
  create_delivery_done :
      (item : DeliveryReceipt)
      → is_ok (create_delivery ctx item m).0 ≡ true
      → ((create_delivery ctx item m).1
          ≡ record m { deliveries = insert item.id item m.deliveries })
        × (m.deliveries item.id ≡ none)
  unfolding create_delivery ◌>>=◌
  create_delivery_done item h = ground arith

  pub create_delivery-Advances :
      (item : DeliveryReceipt)
      → is_ok (create_delivery ctx item m).0 ≡ true
      → Advances m (create_delivery ctx item m).1
  create_delivery-Advances item h =
      let (e, n) = create_delivery_done item h in
      rw e (record {
        keeps_verification = λ key v q. q;
        keeps_delivery = λ key v q. ground (arith, q, n, ==_iff item.id key);
        keeps_review = λ key v q. q;
        keeps_closure = λ key v q. q;
        adds_review = λ key v q. inl q;
        adds_closure = λ key v q. inl q;
      })

  create_verification_done :
      (report : Verification.Report)
      → is_ok (create_verification ctx report m).0 ≡ true
      → ((create_verification ctx report m).1
          ≡ record m { verification_reports = insert report.id report m.verification_reports })
        × (m.verification_reports report.id ≡ none)
  unfolding create_verification ◌>>=◌
  create_verification_done report h = ground arith

  pub create_verification-Advances :
      (report : Verification.Report)
      → is_ok (create_verification ctx report m).0 ≡ true
      → Advances m (create_verification ctx report m).1
  create_verification-Advances report h =
      let (e, n) = create_verification_done report h in
      rw e (record {
        keeps_verification = λ key v q. ground (arith, q, n, ==_iff report.id key);
        keeps_delivery = λ key v q. q;
        keeps_review = λ key v q. q;
        keeps_closure = λ key v q. q;
        adds_review = λ key v q. inl q;
        adds_closure = λ key v q. inl q;
      })

module _ (ctx : Context) (m : Memory) (n : ℕ) (w : WorkItem) where
  create_review_done :
      (r : Review.Report)
      → is_ok (create_review_and_update_work ctx r n w m).0 ≡ true
      → ((create_review_and_update_work ctx r n w m).1 ≡ record m {
        review_reports = insert r.id r m.review_reports;
        review_by_verification = insert r.verification_report_id r.id m.review_by_verification;
        works = insert w.id (record w { version = u64 (n + 1) }) m.works;
      })
        × (m.review_reports r.id ≡ none)
        × (Review.validate r ≡ none)
        × (m.verification_reports r.verification_report_id ≢ none)
        × (m.deliveries r.delivery_receipt_id ≢ none)
        × (m.works w.id ≢ none)
  unfolding create_review_and_update_work ◌>>=◌
  create_review_done r h = ground arith

  create_review_agrees :
      (r : Review.Report) (v : Verification.Report) (d : DeliveryReceipt) (current : WorkItem)
      → m.verification_reports r.verification_report_id ≡ some v
      → m.deliveries r.delivery_receipt_id ≡ some d
      → m.works w.id ≡ some current
      → is_ok (create_review_and_update_work ctx r n w m).0 ≡ true
      → review_conflict r n w v d current ≡ false
  unfolding create_review_and_update_work ◌>>=◌
  create_review_agrees r v d current a b c h = ground arith

  create_review-Backed :
      (r : Review.Report)
      → is_ok (create_review_and_update_work ctx r n w m).0 ≡ true
      → ReviewBacked m r
  create_review-Backed r h =
      let (e, fresh, admitted, hv, hd, hw) = create_review_done r h in
      elim (Option-cases (m.verification_reports r.verification_report_id)) [
        | inl q ↦ elim (hv q) [ ]
        | inr (v, p) ↦ elim (Option-cases (m.deliveries r.delivery_receipt_id)) [
          | inl q ↦ elim (hd q) [ ]
          | inr (d, q) ↦ elim (Option-cases (m.works w.id)) [
            | inl z ↦ elim (hw z) [ ]
            | inr (current, z) ↦
                let free = create_review_agrees r v d current p q z h in
                (v, d, p, q, review_conflict_free r n w v d current free admitted)
          ]
        ]
      ]

  pub create_review-Advances :
      (r : Review.Report)
      → is_ok (create_review_and_update_work ctx r n w m).0 ≡ true
      → Advances m (create_review_and_update_work ctx r n w m).1
  create_review-Advances r h =
      let all = create_review_done r h in
      let fresh = all.1 in
      let backed = create_review-Backed r h in
      rw (all.0) (record {
        keeps_verification = λ key v q. q;
        keeps_delivery = λ key v q. q;
        keeps_review = λ key v q. ground (arith, q, fresh, ==_iff r.id key);
        keeps_closure = λ key v q. q;
        adds_review =
            λ key v q. insert-added r.id key r v m.review_reports (ReviewBacked m) backed q;
        adds_closure = λ key v q. inl q;
      })

  create_closure_done :
      (c : ClosureReceipt)
      → is_ok (create_closure_and_update_work ctx c n w m).0 ≡ true
      → ((create_closure_and_update_work ctx c n w m).1 ≡ record m {
        closures = insert c.id c m.closures;
        works = insert w.id (record w { version = u64 (n + 1) }) m.works;
      })
        × (m.closures c.id ≡ none)
        × (m.works w.id ≢ none)
        × (m.review_reports c.review_report_id ≢ none)
  unfolding create_closure_and_update_work ◌>>=◌
  create_closure_done c h = ground arith

  create_closure_agrees :
      (c : ClosureReceipt) (r : Review.Report) (current : WorkItem)
      → m.review_reports c.review_report_id ≡ some r
      → m.works w.id ≡ some current
      → is_ok (create_closure_and_update_work ctx c n w m).0 ≡ true
      → closure_conflict c n w r current ≡ false
  unfolding create_closure_and_update_work ◌>>=◌
  create_closure_agrees c r current a b h = ground arith

  create_closure-Backed :
      (c : ClosureReceipt)
      → is_ok (create_closure_and_update_work ctx c n w m).0 ≡ true
      → ClosureBacked m c
  create_closure-Backed c h =
      let (e, fresh, hw, hr) = create_closure_done c h in
      elim (Option-cases (m.review_reports c.review_report_id)) [
        | inl q ↦ elim (hr q) [ ]
        | inr (r, p) ↦ elim (Option-cases (m.works w.id)) [
          | inl z ↦ elim (hw z) [ ]
          | inr (current, z) ↦
              let free = create_closure_agrees c r current p z h in
              (r, p, closure_conflict_free c n w r current free)
        ]
      ]

  pub create_closure-Advances :
      (c : ClosureReceipt)
      → is_ok (create_closure_and_update_work ctx c n w m).0 ≡ true
      → Advances m (create_closure_and_update_work ctx c n w m).1
  create_closure-Advances c h =
      let all = create_closure_done c h in
      let fresh = all.1 in
      let backed = create_closure-Backed c h in
      rw (all.0) (record {
        keeps_verification = λ key v q. q;
        keeps_delivery = λ key v q. q;
        keeps_review = λ key v q. q;
        keeps_closure = λ key v q. ground (arith, q, fresh, ==_iff c.id key);
        adds_review = λ key v q. inl q;
        adds_closure = λ key v q. insert-added c.id key c v m.closures (ClosureBacked m) backed q;
      })
