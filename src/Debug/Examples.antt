-- ===== src/Debug/Examples.antt =====
-- A hypothesis that is confirmed by a log.
use engineering_platform.Prelude.{[], arith, refl, some, ◌>>=◌, ◌∷◌, ◌≡◌}
use engineering_platform.Debug.{Hypothesis, Registry, add, confirm, confirmed, new_registry, other}
use engineering_platform.Debug.Confirmed.{Built-Proven, Proven, added, confirmed_by, nothing}

abbrev hypothesis : Hypothesis
hypothesis = record {
  id = "h1";
  statement = "the clock drifts";
  observed_support = [];
  inferred_support = [];
  contradicting_evidence = [];
  proposed_experiment = "";
  evidence_refs = [];
  status = other "";
  updated_at = 0;
}

unproven-Proven : Proven hypothesis
unproven-Proven c = ground (arith, c)

abbrev registry : Registry
registry = (confirm "h1" ("log-1" ∷ []) 5 (add hypothesis new_registry)).1

abbrev settled : Hypothesis
settled = record hypothesis { evidence_refs = "log-1" ∷ []; status = confirmed; updated_at = 5 }

settled_there : registry "h1" ≡ some settled
unfolding confirm add ◌>>=◌
settled_there = refl

Built-Proven_example : Proven settled
Built-Proven_example =
    Built-Proven "h1" settled
      (confirmed_by "h1" ("log-1" ∷ []) 5 (added hypothesis unproven-Proven nothing)) settled_there
