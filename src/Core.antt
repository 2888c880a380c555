-- ===== src/Core.antt =====
-- internal/core: the data model (model.go), the state machine of a work item (work_state.go), and
-- the checks of context references and continuations (context.go, continuation.go).
mod Transitions
mod References
mod Examples
use engineering_platform.Prelude.{
  ==_iff, Bool, Eq, Error, Exec, List, Option, String, [], arith, codes, contains, contains_any,
  err, false, fits, if◌then◌else◌, invalid_context, invalid_work_transition, length, ltb, message,
  nat_eq, none, not, ok, sentinel, some, string_eq, true, wrapped, ℕ, ◌!=◌, ◌&&◌, ◌*◌, ◌<>◌, ◌==◌,
  ◌^◌, ◌||◌, ◌↔◌, ◌∷◌, ◌≡◌,
}
use engineering_platform.Canonical.{matches_name, valid_digest}

-- A state is a Go string; `other` is one that is none of the constants.
pub data WorkState : Type 0 where
  draft ready executing verifying reviewing closed cancelled : WorkState
  other : String → WorkState

abbrev pub work_state_beq : WorkState → WorkState → Bool
work_state_beq draft draft = true
work_state_beq ready ready = true
work_state_beq executing executing = true
work_state_beq verifying verifying = true
work_state_beq reviewing reviewing = true
work_state_beq closed closed = true
work_state_beq cancelled cancelled = true
work_state_beq (other a) (other b) = a == b
work_state_beq _ _ = false

pub work_state_beq_iff : (a b : WorkState) → (work_state_beq a b ≡ true) ↔ (a ≡ b)
work_state_beq_iff (other a) (other b) = ground (arith, ==_iff a b)
work_state_beq_iff draft _ = ground arith
work_state_beq_iff _ _ = ground arith

instance abbrev pub work_state_eq : Eq WorkState
work_state_eq = record { equal = work_state_beq; equal_iff = work_state_beq_iff }

pub record WorkItem : Type 0 where
  pub id : String
  pub title : String
  pub source_ref : String
  pub human_owner : String
  pub target_id : String
  pub assurance_class : String
  pub active_task_contract_digest : String
  pub active_run_id : String
  pub state : WorkState
  pub version : ℕ
  pub created_at : ℕ

pub record TaskContract : Type 0 where
  pub id : String
  pub work_item_id : String
  pub task_type : String
  pub capability_ids : List String
  pub skill_ids : List String
  pub skill_contract_digest : String
  pub skill_guidance_version : ℕ
  pub repository : String
  pub base_commit : String
  pub target_id : String
  pub target_platform : String
  pub acceptance_criteria : List String
  pub allowed_actions : List String
  pub expected_outputs : List String
  pub verification_plan_id : String
  pub verification_plan_digest : String
  pub revision : ℕ

pub record ContextRef : Type 0 where
  pub source : String
  pub type_name : String
  pub version : String
  pub digest : String
  pub trust : String

-- `archive_size` is an int64; a negative one is refused as 0 is.
pub record ContinuationRef : Type 0 where
  pub source_run_id : String
  pub checkpoint_digest : String
  pub archive_digest : String
  pub archive_size : ℕ
  pub snapshot_digest : String

pub record RunInputManifest : Type 0 where
  pub continuation : Option ContinuationRef
  pub run_id : String
  pub task_contract_digest : String
  pub context_refs : List ContextRef
  pub runtime_profile : String
  pub tool_profile : String
  pub worker_profile : String
  pub policy_profile : String

pub record ArtifactRef : Type 0 where
  pub id : String
  pub digest : String
  pub media_type : String
  pub locator : String

pub record EvidenceRef : Type 0 where
  pub id : String
  pub delivery_receipt_id : String
  pub requirement_id : String
  pub subject_digest : String
  pub issuer : String
  pub procedure : String
  pub result : String
  pub artifact_refs : List String
  pub applicable : Bool

pub record DeliveryReceipt : Type 0 where
  pub id : String
  pub work_item_id : String
  pub task_contract_digest : String
  pub run_id : String
  pub target_id : String
  pub base_commit : String
  pub result_commit : String
  pub subject_digest : String
  pub artifacts : List ArtifactRef
  pub known_limits : List String
  pub created_at : ℕ

pub record ClosureReceipt : Type 0 where
  pub id : String
  pub work_item_id : String
  pub task_contract_digest : String
  pub run_id : String
  pub delivery_receipt_id : String
  pub verification_report_id : String
  pub review_report_id : String
  pub subject_digest : String
  pub result : String
  pub created_at : ℕ

-- The table of `Transition`'s switch.
abbrev pub allowed : WorkState → WorkState → Bool
allowed draft to = to == ready || to == cancelled
allowed ready to = to == executing || to == cancelled
allowed executing to = to == verifying || to == cancelled
allowed verifying to = to == reviewing || to == cancelled
allowed reviewing to = to == closed || to == cancelled
allowed _ to = false

unfoldable pub transition : WorkState → Exec WorkItem Unit
transition to w =
    if w.state == to
    then (ok tt, w)
    else if not (allowed w.state to)
    then (err (sentinel invalid_work_transition), w)
    else (ok tt, record w { state = to })

context_source : String → Bool
context_source v = matches_name (codes "._:-") 255 (codes v)

context_version : String → Bool
context_version v = matches_name (codes "._+-") 127 (codes v)

-- `Validate` of a context reference; `none` is success.
unfoldable pub validate_ref : ContextRef → Option Error
unfolding context_source context_version
validate_ref r =
    if not (context_source r.source) || not (context_version r.version)
    then some (wrapped invalid_context (message "source/version"))
    else if not (
        r.type_name == "DOCUMENT"
        || r.type_name == "SKILL"
        || r.type_name == "LOG"
        || r.type_name == "EVIDENCE")
    then some (wrapped invalid_context (message "unknown type"))
    else if not (valid_digest r.digest)
    then some (wrapped invalid_context (message "digest"))
    else if r.trust != "APPROVED" && r.trust != "UNTRUSTED"
    then some (wrapped invalid_context (message "trust"))
    else none

-- The key of the `seen` map, `ref.Type + ":" + ref.Source`.
abbrev pub ref_key : ContextRef → String
ref_key r = r.type_name <> ":" <> r.source

-- The loop of `ValidateContextRefs`, over the keys seen so far.
validate_refs : List String → List ContextRef → Option Error
validate_refs seen [] = none
validate_refs seen (ref ∷ refs) =
    let rest = validate_refs (ref_key ref ∷ seen) refs in
    elim (validate_ref ref) [
      | some e ↦ some e
      | none ↦
          if contains seen (ref_key ref)
          then some (wrapped invalid_context (message "duplicate source/type"))
          else rest
    ]

unfoldable pub validate_context_refs : List ContextRef → Option Error
unfolding validate_refs
validate_context_refs refs =
    if ltb 64 (length refs)
    then some (wrapped invalid_context (message "at most 64 context references"))
    else validate_refs [] refs

-- `Validate` of a continuation, at the run that carries it. 800 << 20 bytes are the limit.
unfoldable pub validate_continuation : ContinuationRef → String → Option Error
validate_continuation c run_id =
    if c.source_run_id == ""
      || not (fits c.source_run_id 256)
      || c.source_run_id == run_id
      || contains_any c.source_run_id (0 ∷ 13 ∷ 10 ∷ [])
      || c.archive_size == 0
      || ltb (800 * 2 ^ 20) c.archive_size
    then some (message "invalid source continuation identity")
    else if not (valid_digest c.checkpoint_digest)
        || not (valid_digest c.archive_digest)
        || not (valid_digest c.snapshot_digest)
    then some (message "invalid source continuation digest")
    else none
