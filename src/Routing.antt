-- ===== src/Routing.antt =====
-- internal/routing/router.go: the capabilities and skills of a task.
mod Targets
mod Examples
use engineering_platform.Prelude.{
  Bool, List, Option, Result, String, [], contains_any, err, fits, if◌then◌else◌, is_trimmed,
  lower_contains, message, nat_eq, none, not, ok, some, string_eq, upper_is, ◌!=◌, ◌&&◌, ◌++◌, ◌==◌,
  ◌||◌, ◌∷◌,
}

pub record Route : Type 0 where
  pub task_type : String
  pub capability_ids : List String
  pub skill_ids : List String

pub record TargetContext : Type 0 where
  pub target_id : String
  pub platform : String

-- Whether the lower-cased subsystem names one of the family.
abbrev pub names_linux : String → Bool
names_linux sub =
    lower_contains sub "linux"
    || lower_contains sub "bsp"
    || lower_contains sub "storage"
    || lower_contains sub "ubi"

abbrev pub names_mcu : String → Bool
names_mcu sub = lower_contains sub "mcu" || lower_contains sub "rtos" || lower_contains sub "motor"

abbrev pub route : String → List String → List String → Route
route task capabilities skills = record {
  task_type = task;
  capability_ids = capabilities;
  skill_ids = skills;
}

abbrev debug_route : String → String → Route
debug_route task sub =
    if names_linux sub
    then route task ("embedded.debug-reliability" ∷ "embedded.linux-bsp" ∷ [])
        ("material-readiness" ∷ "log-triage" ∷ "linux-bsp-debug" ∷ [])
    else if names_mcu sub
    then route task ("embedded.debug-reliability" ∷ "embedded.mcu-rtos" ∷ [])
        ("material-readiness" ∷ "log-triage" ∷ "mcu-rtos-debug" ∷ [])
    else route task ("embedded.debug-reliability" ∷ []) ("material-readiness" ∷ "log-triage" ∷ [])

abbrev feature_skills : List String
feature_skills =
    "material-readiness" ∷ "architecture-impact-analysis" ∷ "interface-contract-review"
    ∷ "driver-integration-review" ∷ []

abbrev feature_capabilities : List String
feature_capabilities = "embedded.architecture" ∷ "embedded.driver-component" ∷ []

abbrev feature_route : String → String → Route
feature_route task sub =
    if names_linux sub
    then route task (feature_capabilities ++ "embedded.linux-bsp" ∷ [])
        (feature_skills ++ "linux-bsp-integration" ∷ [])
    else if names_mcu sub
    then route task (feature_capabilities ++ "embedded.mcu-rtos" ∷ [])
        (feature_skills ++ "mcu-rtos-integration" ∷ [])
    else route task feature_capabilities feature_skills

abbrev plan_skills : List String
plan_skills = "material-readiness" ∷ "verification-plan-builder" ∷ []

-- The switch over the upper-cased task type.
unfoldable pub resolve : String → String → Result Route
resolve task_type sub =
    if upper_is task_type "DEBUG"
    then ok (debug_route "DEBUG" sub)
    else if upper_is task_type "FEATURE"
    then ok (feature_route "FEATURE" sub)
    else if upper_is task_type "BRINGUP"
    then ok (feature_route "BRINGUP" sub)
    else if upper_is task_type "COMPATIBILITY"
    then ok (feature_route "COMPATIBILITY" sub)
    else if upper_is task_type "DEVICE_TEST"
    then ok (route "DEVICE_TEST" ("embedded.verification" ∷ []) plan_skills)
    else if upper_is task_type "RELEASE"
    then ok (route "RELEASE" ("embedded.verification" ∷ []) plan_skills)
    else if upper_is task_type "PERFORMANCE"
    then ok (
        route "PERFORMANCE" ("embedded.debug-reliability" ∷ "embedded.verification" ∷ [])
          plan_skills)
    else if upper_is task_type "REFACTOR"
    then ok
        (route "REFACTOR" ("embedded.debug-reliability" ∷ "embedded.verification" ∷ []) plan_skills)
    else err (message "unsupported task type")

abbrev bad_target_id : String → Bool
bad_target_id id =
    id == "" || not (fits id 128) || not (is_trimmed id) || contains_any id (0 ∷ 13 ∷ 10 ∷ 9 ∷ [])

unfoldable pub resolve_for_target : String → String → Option TargetContext → Result Route
unfolding resolve
resolve_for_target task_type sub none = resolve task_type sub
resolve_for_target task_type sub (some target) =
    if bad_target_id target.target_id
    then err (message "target_context requires bounded exact target_id")
    else if target.platform != "linux-bsp" && target.platform != "mcu-rtos"
    then err (message "unsupported target_context platform")
    else if names_linux sub && names_mcu sub
    then err (message "ambiguous subsystem families for declared target")
    else if (names_linux sub && target.platform != "linux-bsp")
        || (names_mcu sub && target.platform != "mcu-rtos")
    then err (message "subsystem conflicts with declared target platform")
    else resolve task_type target.platform
