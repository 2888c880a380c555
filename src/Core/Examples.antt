-- ===== src/Core/Examples.antt =====
-- Work items and references at concrete values.
use engineering_platform.Prelude.{All, [], nat_eq, none, refl, string_eq, ◌↔◌, ◌∷◌, ◌≡◌, ◌≢◌, ◌≤◌}
use engineering_platform.Core.{
  ContextRef, WorkItem, cancelled, draft, executing, ready, transition, validate_context_refs,
  validate_ref, work_state_eq,
}
use engineering_platform.Core.Transitions.{Route, Route-path, here, move, path}
use engineering_platform.Core.References.{Apart, validate_context_refs_exact}

abbrev item : WorkItem
item = record {
  id = "work-1";
  title = "title";
  source_ref = "issue";
  human_owner = "owner";
  target_id = "target";
  assurance_class = "STANDARD";
  active_task_contract_digest = "";
  active_run_id = "";
  state = draft;
  version = 1;
  created_at = 3;
}

abbrev executing_item : WorkItem
executing_item = (transition executing (transition ready item).1).1

executing-Route : Route item (executing ∷ ready ∷ []) executing_item
unfolding transition
executing-Route = move executing (move ready here refl (λ e. cc)) refl (λ e. cc)

executing_is_not_cancelled : executing_item.state ≢ cancelled
unfolding transition
executing_is_not_cancelled e = cc

Route-path_example : executing ∷ ready ∷ [] ≡ path executing_item.state
Route-path_example = Route-path refl executing-Route executing_is_not_cancelled

abbrev reference : ContextRef
reference = record {
  source = "docs";
  type_name = "DOCUMENT";
  version = "v1";
  digest = "sha256:0000000000000000000000000000000000000000000000000000000000000000";
  trust = "APPROVED";
}

validate_context_refs_exact_example :
    (validate_context_refs (reference ∷ reference ∷ []) ≡ none) ↔ (
      (2 ≤ 64)
      × All (λ r. validate_ref r ≡ none) (reference ∷ reference ∷ [])
      × Apart (reference ∷ reference ∷ []))
validate_context_refs_exact_example = validate_context_refs_exact (reference ∷ reference ∷ [])
