-- ===== src/Review.antt =====
-- internal/review: what makes a review report acceptable.
pub mod Acceptance
mod Examples
use engineering_platform.Prelude.{
  Bool, Error, List, Option, Result, String, [], bounded, contains, err, if◌then◌else◌, length, ltb,
  message, nat_eq, none, not, ok, some, string_eq, true, ℕ, ◌!=◌, ◌&&◌, ◌+◌, ◌==◌, ◌||◌, ◌∷◌,
}
use engineering_platform.Canonical.{valid_digest}

pub record Finding : Type 0 where
  pub id : String
  pub severity : String
  pub summary : String

pub record Report : Type 0 where
  pub id : String
  pub delivery_receipt_id : String
  pub verification_report_id : String
  pub task_contract_digest : String
  pub subject_digest : String
  pub reviewer : String
  pub result : String
  pub findings : List Finding
  pub known_limits : List String
  pub created_at : ℕ

bad_identity : Report → Bool
bad_identity r =
    not (bounded r.id 256)
    || not (bounded r.delivery_receipt_id 256)
    || not (bounded r.verification_report_id 256)
    || not (valid_digest r.task_contract_digest)
    || not (valid_digest r.subject_digest)
    || not (bounded r.reviewer 256)
    || (r.result != "PASS" && r.result != "FAIL")
    || r.created_at == 0

-- The loop over the findings: the number of blocking ones, or an error.
count_blocking : List String → List Finding → Result ℕ
count_blocking seen [] = ok 0
count_blocking seen (f ∷ fs) =
    let rest = count_blocking (f.id ∷ seen) fs in
    if not (bounded f.id 256) || not (bounded f.summary 4096) || contains seen f.id
    then err (message "invalid or duplicate review finding")
    else if f.severity == "INFO" || f.severity == "WARNING"
    then rest
    else if f.severity == "BLOCKING"
    then (elim rest [ ok n ↦ ok (n + 1) | err e ↦ err e ])
    else err (message "invalid review severity")

limits_bounded : List String → Bool
limits_bounded [] = true
limits_bounded (l ∷ ls) = bounded l 4096 && limits_bounded ls

-- The end of `Validate`, which weighs the result against the blocking findings.
weigh : Report → Result ℕ → Option Error
weigh r (err e) = some e
weigh r (ok blocking) =
    if not (limits_bounded r.known_limits)
    then some (message "invalid review known limit")
    else if r.result == "PASS" && blocking != 0
    then some (message "PASS review cannot contain blocking findings")
    else if r.result == "FAIL" && blocking == 0
    then some (message "FAIL review requires a blocking finding")
    else none

unfoldable pub validate : Report → Option Error
unfolding bad_identity weigh count_blocking limits_bounded
validate r =
    if bad_identity r
    then some (message "invalid review identity")
    else if ltb 64 (length r.findings) || ltb 64 (length r.known_limits)
    then some (message "review collection limit exceeded")
    else weigh r (count_blocking [] r.findings)
