-- ===== src/Audit/Examples.antt =====
-- A journal of two events.
use engineering_platform.Prelude.{List, Result, String, [], map, ok, refl, ◌<>◌, ◌∷◌, ◌≡◌}
use engineering_platform.Audit.{
  Event, EventContent, Input, append_input, build, content_of, event_of, verify,
}
use engineering_platform.Audit.Chain.{
  Journal, Journal-verify, appended, content, new, verify_unique,
}

abbrev input : String → Input
input payload = record {
  type_name = "RUN_STARTED";
  aggregate_type = "run";
  aggregate_id = "run-1";
  payload_digest = payload;
  correlation_id = "";
  causation_id = "";
}

-- A digest of the payload and of what came before.
abbrev hash : EventContent → Result String
hash c = ok (c.payload_digest <> "/" <> c.previous_digest)

abbrev journal : List Event
journal = (append_input hash (input "b") 6 (append_input hash (input "a") 5 []).1).1

-- The journal written at other times.
abbrev later_journal : List Event
later_journal = (append_input hash (input "b") 9 (append_input hash (input "a") 8 []).1).1

-- The second event stands behind the digest of the first.
journal_there :
    journal
    ≡ event_of (content_of 1 "" (input "a")) "a/" 5
      ∷ event_of (content_of 2 "a/" (input "b")) "b/a/" 6
      ∷ []
unfolding append_input build
journal_there = refl

journal-Journal : Journal hash journal
journal-Journal = appended (input "b") 6 (appended (input "a") 5 new)

later_journal-Journal : Journal hash later_journal
later_journal-Journal = appended (input "b") 9 (appended (input "a") 8 new)

Journal-verify_example : verify hash journal ≡ ok tt
Journal-verify_example = Journal-verify hash journal-Journal

verify_unique_example : map content journal ≡ map content later_journal
unfolding append_input build
verify_unique_example =
    verify_unique hash journal later_journal ((λ d p q. refl), (λ d p q. refl, tt)) refl
      (Journal-verify hash journal-Journal) (Journal-verify hash later_journal-Journal) refl
