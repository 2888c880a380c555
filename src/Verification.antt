-- ===== src/Verification.antt =====
-- internal/verification: verification plans, and the verdict on a delivery from its evidence.
pub mod Verdict
pub mod Artifacts
mod Examples
use engineering_platform.Prelude.{
  Bool, List, Option, String, [], contains, false, if◌then◌else◌, is_empty, length, ltb, map,
  nat_eq, none, not, some, string_eq, true, ℕ, ◌!=◌, ◌&&◌, ◌++◌, ◌+◌, ◌-◌, ◌==◌, ◌||◌, ◌∷◌,
}
use engineering_platform.Core.{ArtifactRef, DeliveryReceipt, EvidenceRef, work_state_eq}

pub record EvidenceRequirement : Type 0 where
  pub id : String
  pub procedure : String
  pub issuer : String

pub record Criterion : Type 0 where
  pub id : String
  pub statement : String
  pub requirements : List EvidenceRequirement

pub record Plan : Type 0 where
  pub id : String
  pub criteria : List Criterion

pub record CriterionResult : Type 0 where
  pub criterion_id : String
  pub result : String
  pub reason : String

pub record Report : Type 0 where
  pub id : String
  pub delivery_receipt_id : String
  pub plan_id : String
  pub verification_plan_digest : String
  pub subject_digest : String
  pub result : String
  pub verifier : String
  pub criteria : List CriterionResult
  pub evidence_ids : List String
  pub created_at : ℕ

-- The map `expected` of `ValidatePlan`, which counts each acceptance criterion.
abbrev Counts : Type 0
Counts = String → ℕ

abbrev bump : String → Counts → Counts
bump k m j = if k == j then m j + 1 else m j

abbrev lower : String → Counts → Counts
lower k m j = if k == j then m j - 1 else m j

expected_counts : Counts → List String → Option Counts
expected_counts m [] = some m
expected_counts m (ac ∷ acs) =
    let rest = expected_counts (bump ac m) acs in if ac == "" then none else rest

-- The identifiers seen so far with those of these requirements, or `none` at a bad one.
check_requirements : List String → List EvidenceRequirement → Option (List String)
check_requirements seen [] = some seen
check_requirements seen (req ∷ reqs) =
    let rest = check_requirements (req.id ∷ seen) reqs in
    if req.id == "" || contains seen req.id || req.procedure == "" then none else rest

bad_criterion : List String → Counts → Criterion → Bool
bad_criterion seen m c =
    c.id == ""
    || contains seen c.id
    || c.statement == ""
    || is_empty c.requirements
    || m c.statement == 0

check_criteria : List String → List String → Counts → List Criterion → Option Counts
check_criteria ids reqs m [] = some m
check_criteria ids reqs m (c ∷ cs) =
    let rest = λ (seen : List String). check_criteria (c.id ∷ ids) seen (lower c.statement m) cs in
    if bad_criterion ids m c
    then none
    else elim (check_requirements reqs c.requirements) [ none ↦ none | some seen ↦ rest seen ]

all_zero : Counts → List String → Bool
all_zero m [] = true
all_zero m (k ∷ ks) = m k == 0 && all_zero m ks

covers : List String → List Criterion → Option Counts → Bool
unfolding check_criteria check_requirements bad_criterion all_zero
covers acs cs none = false
covers acs cs (some m) = elim (check_criteria [] [] m cs) [
  | none ↦ false
  | some m' ↦ all_zero m' acs
]

unfoldable pub validate_plan : Plan → List String → Bool
unfolding covers expected_counts
validate_plan plan acs =
    if plan.id == "" || is_empty plan.criteria || length plan.criteria != length acs
    then false
    else covers acs plan.criteria (expected_counts (λ _. 0) acs)

find_in : List EvidenceRequirement → String → Option EvidenceRequirement
find_in [] id = none
find_in (r ∷ rs) id = let rest = find_in rs id in if r.id == id then some r else rest

find_in_criteria : List Criterion → String → Option EvidenceRequirement
unfolding find_in
find_in_criteria [] id = none
find_in_criteria (c ∷ cs) id =
    let rest = find_in_criteria cs id in
    elim (find_in c.requirements id) [ some r ↦ some r | none ↦ rest ]

unfoldable pub find_requirement : Plan → String → Option EvidenceRequirement
unfolding find_in_criteria
find_requirement plan id = if id == "" then none else find_in_criteria plan.criteria id

unfoldable pub evidence_matches_requirement : EvidenceRequirement → EvidenceRef → Bool
evidence_matches_requirement r item =
    if r.id == "" || item.requirement_id != r.id || item.procedure != r.procedure
    then false
    else r.issuer == "" || item.issuer == r.issuer

unfoldable pub evidence_matches_plan : Plan → EvidenceRef → Bool
unfolding find_requirement evidence_matches_requirement
evidence_matches_plan plan item = elim (find_requirement plan item.requirement_id) [
  | none ↦ false
  | some r ↦ evidence_matches_requirement r item
]

-- The identifiers of the artifacts, or `none` where one is empty or comes twice.
available_artifacts : List String → List ArtifactRef → Option (List String)
available_artifacts seen [] = some seen
available_artifacts seen (a ∷ rest) =
    let more = available_artifacts (a.id ∷ seen) rest in
    if a.id == "" || contains seen a.id then none else more

refs_belong : List String → List String → List String → Bool
refs_belong available seen [] = true
refs_belong available seen (id ∷ ids) =
    let rest = refs_belong available (id ∷ seen) ids in
    if id == "" || contains seen id || not (contains available id) then false else rest

unfoldable pub evidence_artifacts_belong : DeliveryReceipt → EvidenceRef → Bool
unfolding available_artifacts refs_belong
evidence_artifacts_belong delivery item = elim (available_artifacts [] delivery.artifacts) [
  | none ↦ false
  | some available ↦
      if ltb (length available) (length item.artifact_refs)
      then false
      else refs_belong available [] item.artifact_refs
]

-- One round of the loop of `requirementSatisfied`.
unfoldable pub supports : EvidenceRequirement → String → EvidenceRef → Bool
unfolding evidence_matches_requirement
supports r subject item =
    if not item.applicable || item.subject_digest != subject || item.result != "PASS"
    then false
    else evidence_matches_requirement r item

any_supports : EvidenceRequirement → String → List EvidenceRef → Bool
any_supports r subject [] = false
any_supports r subject (item ∷ items) = supports r subject item || any_supports r subject items

unfoldable pub requirement_satisfied : EvidenceRequirement → String → List EvidenceRef → Bool
unfolding any_supports supports
requirement_satisfied r subject evidence =
    if r.id == "" || r.procedure == "" then false else any_supports r subject evidence

all_satisfied : String → List EvidenceRef → List EvidenceRequirement → Bool
all_satisfied subject evidence [] = true
all_satisfied subject evidence (r ∷ rs) =
    requirement_satisfied r subject evidence && all_satisfied subject evidence rs

unfoldable pub criterion_result : String → List EvidenceRef → Criterion → CriterionResult
unfolding all_satisfied requirement_satisfied
criterion_result subject evidence c =
    if c.id == "" || c.statement == "" || is_empty c.requirements
    then record { criterion_id = c.id; result = "FAIL"; reason = "criterion is incomplete" }
    else if not (all_satisfied subject evidence c.requirements)
    then record {
      criterion_id = c.id;
      result = "FAIL";
      reason = "required evidence requirement was not satisfied";
    }
    else record { criterion_id = c.id; result = "PASS"; reason = "" }

-- The fields of the report that `Evaluate` leaves at their zero values are empty.
blank_report : Plan → String → List EvidenceRef → Report
blank_report plan subject evidence = record {
  id = "";
  delivery_receipt_id = "";
  plan_id = plan.id;
  verification_plan_digest = "";
  subject_digest = subject;
  result = "PASS";
  verifier = "";
  criteria = [];
  evidence_ids = map (λ (e : EvidenceRef). e.id) evidence;
  created_at = 0;
}

evaluate_criteria : String → List EvidenceRef → Report → List Criterion → Report
evaluate_criteria subject evidence report [] = report
evaluate_criteria subject evidence report (c ∷ cs) =
    let r = criterion_result subject evidence c in
    evaluate_criteria subject evidence
      (record report {
        result = if r.result != "PASS" then "FAIL" else report.result;
        criteria = report.criteria ++ r ∷ [];
      })
      cs

unfoldable pub evaluate : Plan → String → List EvidenceRef → Report
unfolding evaluate_criteria blank_report criterion_result
evaluate plan subject evidence =
    if subject == "" || is_empty plan.criteria
    then record (blank_report plan subject evidence) { result = "FAIL" }
    else evaluate_criteria subject evidence (blank_report plan subject evidence) plan.criteria
