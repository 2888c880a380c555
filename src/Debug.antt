-- ===== src/Debug.antt =====
-- internal/debug/hypothesis.go: the registry of hypotheses and their evidence.
pub mod Confirmed
mod Examples
use engineering_platform.Prelude.{
  Bool, Exec, List, Map, String, empty, evidence_required, fail_if, false, find,
  hypothesis_not_found, if◌then◌else◌, insert, is_empty, modify, nat_eq, string_eq, true, ℕ, ◌&&◌,
  ◌==◌, ◌>>=◌, ◌>>◌,
}

pub data Status : Type 0 where
  proposed supported rejected confirmed inconclusive : Status
  other : String → Status

pub record Hypothesis : Type 0 where
  pub id : String
  pub statement : String
  pub observed_support : List String
  pub inferred_support : List String
  pub contradicting_evidence : List String
  pub proposed_experiment : String
  pub evidence_refs : List String
  pub status : Status
  pub updated_at : ℕ

-- The field `items`.
abbrev pub Registry : Type 0
Registry = Map String Hypothesis

abbrev pub new_registry : Registry
new_registry = empty

-- if h.Status == "" { h.Status = Proposed }
abbrev or_proposed : Status → Status
or_proposed (other s) = if s == "" then proposed else other s
or_proposed status = status

unfoldable pub add : Hypothesis → Registry → Registry
add h r = insert h.id (record h { status = or_proposed h.status }) r

unfoldable pub confirm : String → List String → ℕ → Exec Registry Unit
confirm id evidence_refs now = do
  h ← find (λ (r : Registry). r id) hypothesis_not_found
  fail_if (is_empty evidence_refs) evidence_required
  modify
      (insert id (record h { evidence_refs = evidence_refs; status = confirmed; updated_at = now }))

abbrev pub is_confirmed : Status → Bool
is_confirmed confirmed = true
is_confirmed _ = false

unfoldable pub set_status : String → Status → ℕ → Exec Registry Unit
set_status id status now = do
  h ← find (λ (r : Registry). r id) hypothesis_not_found
  fail_if (is_confirmed status && is_empty h.evidence_refs) evidence_required
  modify (insert id (record h { status = status; updated_at = now }))
