-- ===== src/Access/Examples.antt =====
-- A policy with a reviewer, the importer of continuous integration and a worker.
use engineering_platform.Prelude.{
  All, Bool, Distinct, List, Map, String, [], contains, nat_eq, ok, refl, string_eq, ◌∷◌, ◌≡◌,
}
use engineering_platform.Canonical.{matches_name, strip_prefix}
use engineering_platform.Access.{
  Document, Identity, PrincipalSpec, admit, all_distinct, all_grants, allows, bad_counts, dedicated,
  duties_ok, evidence_ok, grants_ok, identity_of, is_name, is_subject, lane_profiles, lanes_from,
  new, principals_from, reserved_ok, subjects, validate_worker_claim_lanes, worker_profiles_ok,
}
use engineering_platform.Access.Duties.{Separated, new-Separated, subjects_of}
use engineering_platform.Access.Lanes.{Laned, new-Laned}

abbrev reviewer : PrincipalSpec
reviewer = record {
  worker_profiles = [];
  subject = "urn:engineering-platform:reviewer";
  scope = "platform";
  capabilities = "review:create" ∷ "core:read" ∷ [];
  actions = [];
  evidence_issuer = "";
  evidence_procedures = [];
}

abbrev importer : PrincipalSpec
importer = record {
  worker_profiles = [];
  subject = "urn:engineering-platform:github-ci-importer";
  scope = "platform";
  capabilities = "core:read" ∷ "evidence:register" ∷ [];
  actions = [];
  evidence_issuer = "github-actions-importer";
  evidence_procedures = "github.actions.trusted-ci.v1" ∷ [];
}

abbrev worker : PrincipalSpec
worker = record {
  worker_profiles = "linux" ∷ [];
  subject = "urn:engineering-platform:worker";
  scope = "platform";
  capabilities = "worker:poll" ∷ "worker:report" ∷ "worker:prepare" ∷ [];
  actions = [];
  evidence_issuer = "";
  evidence_procedures = [];
}

abbrev document : Document
document = record { version = 1; principals = reviewer ∷ importer ∷ worker ∷ [] }

abbrev identities : List Identity
identities = identity_of worker ∷ identity_of importer ∷ identity_of reviewer ∷ []

admitted : new document ≡ ok identities
unfolding new principals_from admit subjects is_subject grants_ok duties_ok bad_counts all_distinct
    all_grants evidence_ok reserved_ok worker_profiles_ok dedicated allows is_name contains
    matches_name strip_prefix validate_worker_claim_lanes lanes_from lane_profiles
admitted = refl

new-Separated_example : All Separated identities × Distinct (subjects_of identities)
new-Separated_example = new-Separated document identities admitted

new-Laned_example : (lane : Map String Bool) × All (Laned lane) identities
new-Laned_example = new-Laned document identities admitted
