-- ===== src/Verification/Verdict.antt =====
-- What the verdict of `Evaluate` (internal/verification/verification.go) rests on.
-- An item of the evidence supports a requirement on a subject.
use engineering_platform.Prelude.{
  ==_iff, All, Any, Bool, List, String, [], arith, false, if◌then◌else◌, is_empty, nat_eq, not,
  refl, string_eq, sym, true, ◌!=◌, ◌++◌, ◌==◌, ◌||◌, ◌↔◌, ◌∙◌, ◌∷◌, ◌≡◌, ◌≢◌, ◌⊎◌,
}
use engineering_platform.Core.{EvidenceRef, work_state_eq}
use engineering_platform.Verification.{
  Criterion, CriterionResult, EvidenceRequirement, Plan, Report, all_satisfied, any_supports,
  blank_report, criterion_result, evaluate, evaluate_criteria, evidence_matches_requirement,
  requirement_satisfied, supports,
}

pub record Supports (r : EvidenceRequirement) (subject : String) (e : EvidenceRef) : Type 0 where
  pub applicable : e.applicable ≡ true
  pub same_subject : e.subject_digest ≡ subject
  pub passed : e.result ≡ "PASS"
  pub same_requirement : e.requirement_id ≡ r.id
  pub same_procedure : e.procedure ≡ r.procedure
  pub from_issuer : (r.issuer ≡ "") ⊎ (e.issuer ≡ r.issuer)

-- A requirement has a name and a procedure, and some item supports it.
abbrev pub Met : String → List EvidenceRef → EvidenceRequirement → Type 0
Met subject evidence r = (r.id ≢ "") × (r.procedure ≢ "") × Any (Supports r subject) evidence

-- A criterion is complete, and each of its requirements is met.
abbrev pub Fulfilled : String → List EvidenceRef → Criterion → Type 0
Fulfilled subject evidence c =
    (c.id ≢ "")
    × (c.statement ≢ "")
    × (c.requirements ≢ [])
    × All (Met subject evidence) c.requirements

supports_sound :
    (r : EvidenceRequirement) (subject : String) (e : EvidenceRef)
    → supports r subject e ≡ true
    → Supports r subject e
unfolding supports evidence_matches_requirement
supports_sound r subject e h = record {
  applicable = ground (arith, h);
  same_subject = ground (arith, h, ==_iff e.subject_digest subject);
  passed = ground (arith, h, ==_iff e.result "PASS");
  same_requirement = ground (arith, h, ==_iff e.requirement_id r.id);
  same_procedure = ground (arith, h, ==_iff e.procedure r.procedure);
  from_issuer = ground (arith, h, ==_iff r.issuer "", ==_iff e.issuer r.issuer);
}

supports_complete :
    (r : EvidenceRequirement) (subject : String) (e : EvidenceRef)
    → r.id ≢ ""
    → Supports r subject e
    → supports r subject e ≡ true
unfolding supports evidence_matches_requirement
supports_complete r subject e n h = ground (
  arith,
  h.applicable,
  h.same_subject,
  h.passed,
  h.same_requirement,
  h.same_procedure,
  h.from_issuer,
  ==_iff e.subject_digest subject,
  ==_iff e.result "PASS",
  ==_iff e.requirement_id r.id,
  ==_iff e.procedure r.procedure,
  ==_iff r.issuer "",
  ==_iff e.issuer r.issuer,
  ==_iff r.id "",
)

any_supports_exact :
    (r : EvidenceRequirement) (subject : String) (es : List EvidenceRef)
    → r.id ≢ ""
    → (any_supports r subject es ≡ true) ↔ Any (Supports r subject) es
unfolding any_supports
any_supports_exact r subject [] n = ground arith
any_supports_exact r subject (e ∷ es) n =
    let (a, b) = any_supports_exact r subject es n in
    ground (arith, a, b, supports_sound r subject e, supports_complete r subject e n)

satisfied_exact :
    (subject : String) (es : List EvidenceRef) (r : EvidenceRequirement)
    → (requirement_satisfied r subject es ≡ true) ↔ Met subject es r
unfolding requirement_satisfied
satisfied_exact subject es r =
    ground (arith, any_supports_exact r subject es, ==_iff r.id "", ==_iff r.procedure "")

all_satisfied_exact :
    (subject : String) (es : List EvidenceRef) (rs : List EvidenceRequirement)
    → (all_satisfied subject es rs ≡ true) ↔ All (Met subject es) rs
unfolding all_satisfied
all_satisfied_exact subject es [] = ground arith
all_satisfied_exact subject es (r ∷ rs) =
    ground (arith, satisfied_exact subject es r, all_satisfied_exact subject es rs)

abbrev fail : String
fail = "FAIL"

fail_is_not_pass : fail ≢ "PASS"
fail_is_not_pass e = ground (arith, (==_iff fail "PASS").1 e)

-- A test with a failing first branch passes only in the second.
pass_if :
    (b : Bool) (x y : CriterionResult)
    → x.result ≡ "FAIL"
    → ((if b then x else y).result ≡ "PASS") ↔ ((b ≡ false) × (y.result ≡ "PASS"))
pass_if true x y f = (λ e. elim (fail_is_not_pass (sym f ∙ e)) [ ], λ p. cc)
pass_if false x y f = ground arith

fail_if_not :
    (b : Bool) (y : String) → ((if b then "FAIL" else y) ≡ "PASS") ↔ ((b ≡ false) × (y ≡ "PASS"))
fail_if_not true y = (λ e. elim (fail_is_not_pass e) [ ], λ p. cc)
fail_if_not false y = ground arith

incomplete_exact :
    (c : Criterion)
    → ((c.id == "" || c.statement == "" || is_empty c.requirements) ≡ false)
      ↔ ((c.id ≢ "") × (c.statement ≢ "") × (c.requirements ≢ []))
incomplete_exact c = ground (arith, ==_iff c.id "", ==_iff c.statement "")

criterion_exact :
    (subject : String) (es : List EvidenceRef) (c : Criterion)
    → ((criterion_result subject es c).result ≡ "PASS") ↔ Fulfilled subject es c
unfolding criterion_result
criterion_exact subject es c =
    let incomplete = c.id == "" || c.statement == "" || is_empty c.requirements in
    let unmet = not (all_satisfied subject es c.requirements) in
    let bad : CriterionResult = record {
      criterion_id = c.id;
      result = "FAIL";
      reason = "required evidence requirement was not satisfied";
    } in
    let good : CriterionResult = record { criterion_id = c.id; result = "PASS"; reason = "" } in
    let (a, b) =
      pass_if incomplete
        (record { criterion_id = c.id; result = "FAIL"; reason = "criterion is incomplete" })
        (if unmet then bad else good) refl in
    let (u, v) = pass_if unmet bad good refl in
    let (p, q) = incomplete_exact c in
    let (x, y) = all_satisfied_exact subject es c.requirements in
    (
      λ h. let (h1, h2) = a h in let (i, s, r) = p h1 in (i, s, r, x (ground (arith, (u h2).0))),
      λ (i, s, r, m). b (q (i, s, r), v (ground (arith, y m), refl)),
    )

evaluate_criteria_exact :
    (subject : String) (es : List EvidenceRef) (report : Report) (cs : List Criterion)
    → ((evaluate_criteria subject es report cs).result ≡ "PASS")
      ↔ ((report.result ≡ "PASS") × All (Fulfilled subject es) cs)
unfolding evaluate_criteria
evaluate_criteria_exact subject es report [] = ground arith
evaluate_criteria_exact subject es report (c ∷ cs) =
    let r = criterion_result subject es c in
    let rest =
      evaluate_criteria_exact subject es
        (record report {
          result = if r.result != "PASS" then "FAIL" else report.result;
          criteria = report.criteria ++ r ∷ [];
        })
        cs in
    let now = criterion_exact subject es c in
    let this = ==_iff r.result "PASS" in
    let mark = fail_if_not (r.result != "PASS") report.result in
    (
      λ h.
          let (p, all) = rest.0 h in
          let (q, old) = mark.0 p in (old, (now.0 (ground (arith, q, this)), all)),
      λ h. rest.1 (mark.1 (ground (arith, now.1 h.1.0, this), h.0), h.1.1),
    )

nonempty_exact :
    (plan : Plan) (subject : String)
    → ((subject == "" || is_empty plan.criteria) ≡ false) ↔ ((subject ≢ "") × (plan.criteria ≢ []))
nonempty_exact plan subject = ground (arith, ==_iff subject "")

report_if :
    (b : Bool) (x y : Report)
    → x.result ≡ "FAIL"
    → ((if b then x else y).result ≡ "PASS") ↔ ((b ≡ false) × (y.result ≡ "PASS"))
report_if true x y f = (λ e. elim (fail_is_not_pass (sym f ∙ e)) [ ], λ p. cc)
report_if false x y f = ground arith

-- A delivery passes verification exactly when its subject is named, the plan has a criterion, and
-- every requirement of every criterion is met by applicable passing evidence on that very subject,
-- by the procedure and from the issuer that the requirement asks for.
pub evaluate_exact :
    (plan : Plan) (subject : String) (es : List EvidenceRef)
    → ((evaluate plan subject es).result ≡ "PASS")
      ↔ ((subject ≢ "") × (plan.criteria ≢ []) × All (Fulfilled subject es) plan.criteria)
unfolding evaluate blank_report
evaluate_exact plan subject es =
    let (a, b) = evaluate_criteria_exact subject es (blank_report plan subject es) plan.criteria in
    let (c, d) = nonempty_exact plan subject in
    let (u, v) =
      report_if (subject == "" || is_empty plan.criteria)
        (record (blank_report plan subject es) { result = "FAIL" })
        (evaluate_criteria subject es (blank_report plan subject es) plan.criteria) refl in
    (
      λ h. let (p, q) = u h in let (x, y) = c p in (x, y, (a q).1),
      λ (x, y, m). v (d (x, y), b (refl, m)),
    )
