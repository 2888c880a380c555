-- ===== src/Routing/Examples.antt =====
-- A task for a declared target.
use engineering_platform.Prelude.{
  [], contains, contains_any, false, is_trimmed, lower_contains, nat_eq, ok, refl, some, string_eq,
  upper_is, ◌∷◌, ◌≡◌, ◌⊎◌,
}
use engineering_platform.Routing.{Route, TargetContext, resolve, resolve_for_target, route}
use engineering_platform.Routing.Targets.{Agrees, foreign, resolve_for_target-Agrees}

abbrev target : TargetContext
target = record { target_id = "board-1"; platform = "mcu-rtos" }

abbrev expected : Route
expected =
    route "DEBUG" ("embedded.debug-reliability" ∷ "embedded.mcu-rtos" ∷ [])
      ("material-readiness" ∷ "log-triage" ∷ "mcu-rtos-debug" ∷ [])

resolved : resolve_for_target "debug" "Motor control" (some target) ≡ ok expected
unfolding resolve_for_target resolve upper_is lower_contains contains_any contains is_trimmed
resolved = refl

resolve_for_target-Agrees_example :
    ((target.platform ≡ "linux-bsp") ⊎ (target.platform ≡ "mcu-rtos"))
    × Agrees "Motor control" target
    × (resolve "debug" target.platform ≡ ok expected)
    × (contains expected.capability_ids (foreign target.platform) ≡ false)
resolve_for_target-Agrees_example =
    resolve_for_target-Agrees "debug" "Motor control" target expected resolved
