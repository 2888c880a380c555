-- ===== src/Access.antt =====
-- internal/access/policy.go and worker.go: the identities of the access policy and what each may do.
-- A set of names is the list that it was filled from; the order in which Go iterates over a map only
-- decides which of several errors is reported, and the texts of the errors are not told apart here.
pub mod Duties
pub mod Lanes
mod Examples
use engineering_platform.Prelude.{
  Bool, List, Map, Option, Result, String, [], codes, contains, empty, err, false, if◌then◌else◌,
  insert, is_empty, leb, length, ltb, map, message, nat_eq, none, not, ok, risk_class, some,
  string_eq, true, ℕ, ◌!=◌, ◌&&◌, ◌==◌, ◌||◌, ◌∷◌,
}
use engineering_platform.Canonical.{matches_name, strip_prefix}

pub record ActionGrant : Type 0 where
  pub action : String
  pub risk_class : String
  pub capability : String

pub record PrincipalSpec : Type 0 where
  pub worker_profiles : List String
  pub subject : String
  pub scope : String
  pub capabilities : List String
  pub actions : List ActionGrant
  pub evidence_issuer : String
  pub evidence_procedures : List String

pub record Document : Type 0 where
  pub version : ℕ
  pub principals : List PrincipalSpec

pub record Identity : Type 0 where
  pub worker_profiles : List String
  pub subject : String
  pub capabilities : List String
  pub actions : List ActionGrant
  pub issuer : String
  pub procedures : List String

abbrev pub read : String
read = "core:read"

abbrev pub review_create : String
review_create = "review:create"

abbrev pub recovery_reconcile : String
recovery_reconcile = "recovery:reconcile"

abbrev pub evidence_register : String
evidence_register = "evidence:register"

abbrev pub action_execute : String
action_execute = "action:execute"

abbrev pub worker_poll : String
worker_poll = "worker:poll"

abbrev pub worker_prepare : String
worker_prepare = "worker:prepare"

-- The vocabulary, with the capability that worker.go registers.
abbrev capability_names : List String
capability_names =
    "worker:poll" ∷ "worker:report" ∷ "core:read" ∷ "work:create" ∷ "task:create" ∷ "run:start"
    ∷ "run:control" ∷ "run:complete" ∷ "checkpoint:create" ∷ "action:execute" ∷ "action:reconcile"
    ∷ "delivery:create" ∷ "evidence:register" ∷ "verification:create" ∷ "review:create"
    ∷ "closure:create" ∷ "recovery:begin" ∷ "recovery:reconcile" ∷ "recovery:complete"
    ∷ "material:degrade" ∷ "worker:prepare" ∷ []

-- The subject, issuer and procedure of a dedicated importer of evidence.
pub record Reserved : Type 0 where
  pub subject : String
  pub issuer : String
  pub procedure : String

abbrev pub trusted_ci : Reserved
trusted_ci = record {
  subject = "urn:engineering-platform:github-ci-importer";
  issuer = "github-actions-importer";
  procedure = "github.actions.trusted-ci.v1";
}

abbrev pub worker_evidence : Reserved
worker_evidence = record {
  subject = "urn:engineering-platform:worker-evidence-importer";
  issuer = "worker-execution-importer";
  procedure = "worker.offline.execution.v1";
}

abbrev pub git_evidence : Reserved
git_evidence = record {
  subject = "urn:engineering-platform:git-evidence-importer";
  issuer = "git-change-importer";
  procedure = "git.changed-tree.v1";
}

abbrev pub codex_evidence : Reserved
codex_evidence = record {
  subject = "urn:engineering-platform:codex-evidence-importer";
  issuer = "codex-execution-importer";
  procedure = "codex.core.execution.v1";
}

abbrev is_subject_text : Option (List ℕ) → Bool
is_subject_text none = false
is_subject_text (some cs) = matches_name (codes "._:-") 191 cs

-- subjectPattern.MatchString
is_subject : String → Bool
is_subject v = is_subject_text (strip_prefix (codes "urn:engineering-platform:") (codes v))

-- namePattern.MatchString
is_name : String → Bool
is_name v = matches_name (codes "._:/-") 191 (codes v)

pub allows : Identity → String → Bool
allows id capability = contains id.capabilities capability

abbrev find_grant : List ActionGrant → String → Option ActionGrant
find_grant [] action = none
find_grant (g ∷ gs) action = if g.action == action then some g else find_grant gs action

abbrev grants : Option ActionGrant → String → String → Bool
grants none risk capability = false
grants (some g) risk capability = g.risk_class == risk && g.capability == capability

pub allows_action : Identity → String → String → String → Bool
allows_action id action risk capability =
    allows id action_execute && grants (find_grant id.actions action) risk capability

pub allows_evidence : Identity → String → String → Bool
allows_evidence id issuer procedure =
    allows id evidence_register && issuer == id.issuer && contains id.procedures procedure

-- The loops over names: each passes a test and differs from those before it.
all_distinct : (String → Bool) → List String → List String → Bool
all_distinct p seen [] = true
all_distinct p seen (x ∷ xs) = p x && not (contains seen x) && all_distinct p (x ∷ seen) xs

valid_risk : String → Bool
valid_risk risk = risk == "OBSERVE" || risk == "CONTROLLED_MUTATION" || risk == "HIGH_RISK"

all_grants : List String → List ActionGrant → Bool
all_grants seen [] = true
all_grants seen (g ∷ gs) =
    is_name g.action
    && is_name g.capability
    && valid_risk g.risk_class
    && not (contains seen g.action)
    && all_grants (g.action ∷ seen) gs

abbrev differ : Bool → Bool → Bool
differ a b = if a then not b else b

-- `validateReservedEvidenceAuthority`
pub reserved_ok : Identity → Reserved → Bool
reserved_ok id r =
    if not (id.subject == r.subject || id.issuer == r.issuer || contains id.procedures r.procedure)
    then true
    else if id.subject != r.subject
        || id.issuer != r.issuer
        || length id.procedures != 1
        || not (contains id.procedures r.procedure)
    then false
    else is_empty id.actions
      && is_empty id.worker_profiles
      && length id.capabilities == 2
      && allows id read
      && allows id evidence_register

-- `configureWorkerProfiles`
pub worker_profiles_ok : Identity → Bool
worker_profiles_ok id =
    leb (length id.worker_profiles) 64
    && all_distinct is_name [] id.worker_profiles
    && not (
        differ (allows id worker_poll || allows id "worker:report")
          (not (is_empty id.worker_profiles)))
    && not (
        allows id worker_prepare
        && (not (allows id worker_poll) || not (allows id "worker:report")))

abbrev only : String → List String → Bool
only duty [] = true
only duty (c ∷ cs) = (c == duty || c == read) && only duty cs

-- What the policy asks of an identity that holds the duty: it holds nothing else.
pub dedicated : String → Identity → Bool
dedicated duty id =
    not (allows id duty)
    || (only duty id.capabilities
        && is_empty id.actions
        && id.issuer == ""
        && is_empty id.procedures
        && is_empty id.worker_profiles)

abbrev pub identity_of : PrincipalSpec → Identity
identity_of spec = record {
  worker_profiles = spec.worker_profiles;
  subject = spec.subject;
  capabilities = spec.capabilities;
  actions = spec.actions;
  issuer = spec.evidence_issuer;
  procedures = spec.evidence_procedures;
}

bad_counts : PrincipalSpec → Bool
bad_counts spec =
    is_empty spec.capabilities
    || ltb (length capability_names) (length spec.capabilities)
    || ltb 64 (length spec.actions)
    || ltb 64 (length spec.evidence_procedures)

evidence_ok : Identity → Bool
evidence_ok id =
    if allows id evidence_register
    then is_name id.issuer && not (is_empty id.procedures)
    else id.issuer == "" && is_empty id.procedures

-- The counts and the loops over what the principal is granted.
grants_ok : PrincipalSpec → Bool
grants_ok spec =
    not (bad_counts spec)
    && all_distinct (contains capability_names) [] spec.capabilities
    && all_grants [] spec.actions
    && not (differ (allows (identity_of spec) action_execute) (not (is_empty spec.actions)))
    && all_distinct is_name [] spec.evidence_procedures
    && evidence_ok (identity_of spec)

-- The checks of the identity's duties; `bare` is the identity before its worker profiles are set.
pub duties_ok : Identity → Identity → Bool
duties_ok bare id =
    reserved_ok bare trusted_ci
    && reserved_ok bare worker_evidence
    && reserved_ok bare git_evidence
    && reserved_ok bare codex_evidence
    && worker_profiles_ok id
    && dedicated review_create id
    && dedicated recovery_reconcile id

abbrev pub bare : Identity → Identity
bare id = record id { worker_profiles = [] }

-- The body of the loop of `New`; `taken` says that the subject is there already.
pub admit : Bool → PrincipalSpec → Bool
admit taken spec =
    is_subject spec.subject
    && spec.scope == "platform"
    && not taken
    && grants_ok spec
    && duties_ok (bare (identity_of spec)) (identity_of spec)

subjects : List Identity → List String
subjects ids = map (λ (i : Identity). i.subject) ids

-- The loop of `New` over the principals, with the identities made so far.
principals_from : List Identity → List PrincipalSpec → Option (List Identity)
principals_from made [] = some made
principals_from made (spec ∷ specs) =
    let rest = principals_from (identity_of spec ∷ made) specs in
    if admit (contains (subjects made) spec.subject) spec then rest else none

-- The inner loop of `validateWorkerClaimLanes`, over the profiles of one identity.
lane_profiles : Bool → Map String Bool → List String → Option (Map String Bool)
lane_profiles prepare lanes [] = some lanes
lane_profiles prepare lanes (p ∷ ps) =
    let rest = lane_profiles prepare (insert p prepare lanes) ps in
    elim (lanes p) [ none ↦ rest | some prior ↦ if differ prior prepare then none else rest ]

lanes_from : Map String Bool → List Identity → Bool
lanes_from lanes [] = true
lanes_from lanes (id ∷ ids) =
    let skipped = lanes_from lanes ids in
    let rest = λ (m : Map String Bool). lanes_from m ids in
    if not (allows id worker_poll)
    then skipped
    else elim (lane_profiles (allows id worker_prepare) lanes id.worker_profiles) [
      | none ↦ false
      | some m ↦ rest m
    ]

pub validate_worker_claim_lanes : List Identity → Bool
validate_worker_claim_lanes ids = lanes_from empty ids

abbrev laned : Option (List Identity) → Result (List Identity)
laned none = err (message "invalid principal")
laned (some ids) =
    if validate_worker_claim_lanes ids
    then ok ids
    else err (message "worker profile mixes admission-only and preparation-capable claimers")

-- `New`: the principals of a policy.
pub new : Document → Result (List Identity)
new doc =
    if doc.version != 1 || is_empty doc.principals || ltb 256 (length doc.principals)
    then err (message "access policy requires version 1 and 1..256 principals")
    else laned (principals_from [] doc.principals)
