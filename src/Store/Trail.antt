-- ===== src/Store/Trail.antt =====
-- The trail behind a closure: which records the methods of the store accept beside each other.
pub mod Accepted
pub mod Always
use mathlib.Core.Path.{subst}
use engineering_platform.Verification
use engineering_platform.Review
use engineering_platform.Prelude.{String, inl, inr, none, some, ◌≡◌, ◌≢◌, ◌⊎◌}
use engineering_platform.Core.{ClosureReceipt, DeliveryReceipt}
use engineering_platform.Store.{Memory}

-- A review agrees with the verification report and the delivery that it names.
pub record ReviewAgrees (r : Review.Report) (v : Verification.Report) (d : DeliveryReceipt)
    : Type 0 where
  pub admitted : Review.validate r ≡ none
  pub verified : v.result ≡ "PASS"
  pub verified_delivery : v.delivery_receipt_id ≡ d.id
  pub verified_subject : v.subject_digest ≡ d.subject_digest
  pub reviewed_subject : r.subject_digest ≡ d.subject_digest
  pub reviewed_task : r.task_contract_digest ≡ d.task_contract_digest
  pub independent : r.reviewer ≢ v.verifier

abbrev pub ReviewBacked : Memory → Review.Report → Type 0
ReviewBacked m r =
    (v : Verification.Report) × (d : DeliveryReceipt) × (m.verification_reports
        r.verification_report_id
      ≡ some v)
    × (m.deliveries r.delivery_receipt_id ≡ some d)
    × ReviewAgrees r v d

-- A closure agrees with the review that it names.
pub record ClosureAgrees (c : ClosureReceipt) (r : Review.Report) : Type 0 where
  pub passed : r.result ≡ "PASS"
  pub same_delivery : r.delivery_receipt_id ≡ c.delivery_receipt_id
  pub same_verification : r.verification_report_id ≡ c.verification_report_id
  pub same_task : r.task_contract_digest ≡ c.task_contract_digest
  pub same_subject : r.subject_digest ≡ c.subject_digest

abbrev pub ClosureBacked : Memory → ClosureReceipt → Type 0
ClosureBacked m c =
    (r : Review.Report) × (m.review_reports c.review_report_id ≡ some r) × ClosureAgrees c r

pub record Trail (m : Memory) : Type 0 where
  pub reviews :
      (key : String) (r : Review.Report) → m.review_reports key ≡ some r → ReviewBacked m r
  pub closures : (key : String) (c : ClosureReceipt) → m.closures key ≡ some c → ClosureBacked m c

-- The four kinds of records are only added to, and reviews and closures that are added are backed
-- by what was there.
pub record Advances (m s : Memory) : Type 0 where
  pub keeps_verification :
      (key : String) (v : Verification.Report)
      → m.verification_reports key ≡ some v
      → s.verification_reports key ≡ some v
  pub keeps_delivery :
      (key : String) (d : DeliveryReceipt) → m.deliveries key ≡ some d → s.deliveries key ≡ some d
  pub keeps_review :
      (key : String) (r : Review.Report)
      → m.review_reports key ≡ some r
      → s.review_reports key ≡ some r
  pub keeps_closure :
      (key : String) (c : ClosureReceipt) → m.closures key ≡ some c → s.closures key ≡ some c
  pub adds_review :
      (key : String) (r : Review.Report)
      → s.review_reports key ≡ some r
      → (m.review_reports key ≡ some r) ⊎ ReviewBacked m r
  pub adds_closure :
      (key : String) (c : ClosureReceipt)
      → s.closures key ≡ some c
      → (m.closures key ≡ some c) ⊎ ClosureBacked m c

settled : {A B : Type 0} → A ⊎ B → (A → B) → B
settled (inl a) f = f a
settled (inr b) f = b

pub Trail-advance : {m s : Memory} → Advances m s → Trail m → Trail s
Trail-advance {m} {s} a t = record {
  reviews = λ key r e.
      let (v, d, p, q, g) = settled (a.adds_review key r e) (t.reviews key r) in
      (
        v,
        d,
        a.keeps_verification r.verification_report_id v p,
        a.keeps_delivery r.delivery_receipt_id d q,
        g,
      );
  closures = λ key c e.
      let (r, p, g) = settled (a.adds_closure key c e) (t.closures key c) in
      (r, a.keeps_review c.review_report_id r p, g);
}

-- The four maps are as they were.
abbrev pub Kept : Memory → Memory → Type 0
Kept m s =
    (s.verification_reports ≡ m.verification_reports)
    × (s.deliveries ≡ m.deliveries)
    × (s.review_reports ≡ m.review_reports)
    × (s.closures ≡ m.closures)

pub Kept-Advances : {m s : Memory} → Kept m s → Advances m s
Kept-Advances (a, b, c, d) = record {
  keeps_verification = λ key v e. rw a e;
  keeps_delivery = λ key v e. rw b e;
  keeps_review = λ key v e. rw c e;
  keeps_closure = λ key v e. rw d e;
  adds_review = λ key r e. inl (subst (λ f. f key ≡ some r) c e);
  adds_closure = λ key r e. inl (subst (λ f. f key ≡ some r) d e);
}
