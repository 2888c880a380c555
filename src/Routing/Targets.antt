-- ===== src/Routing/Targets.antt =====
-- What a declared target decides (`ResolveForTarget` of internal/routing/router.go).
use mathlib.Core.Path.{subst}
use engineering_platform.Prelude.{
  ==_iff, String, arith, contains, false, if◌then◌else◌, inl, inr, lower_contains, nat_eq, ok, some,
  string_eq, true, ◌==◌, ◌≡◌, ◌⊎◌,
}
use engineering_platform.Routing.{
  Route, TargetContext, names_linux, names_mcu, resolve, resolve_for_target,
}

-- The capability of the other family.
abbrev pub foreign : String → String
foreign platform = if platform == "linux-bsp" then "embedded.mcu-rtos" else "embedded.linux-bsp"

resolve_linux :
    (task_type : String) (r : Route)
    → resolve task_type "linux-bsp" ≡ ok r
    → contains r.capability_ids "embedded.mcu-rtos" ≡ false
unfolding resolve lower_contains contains
resolve_linux task_type r e = ground (arith, e)

resolve_mcu :
    (task_type : String) (r : Route)
    → resolve task_type "mcu-rtos" ≡ ok r
    → contains r.capability_ids "embedded.linux-bsp" ≡ false
unfolding resolve lower_contains contains
resolve_mcu task_type r e = ground (arith, e)

-- The subsystem names no family but the platform's.

abbrev pub Agrees : String → TargetContext → Type 0
Agrees sub target =
    (names_linux sub ≡ true → target.platform ≡ "linux-bsp")
    × (names_mcu sub ≡ true → target.platform ≡ "mcu-rtos")

admitted :
    (task_type sub : String) (target : TargetContext) (r : Route)
    → resolve_for_target task_type sub (some target) ≡ ok r
    → ((target.platform ≡ "linux-bsp") ⊎ (target.platform ≡ "mcu-rtos"))
      × Agrees sub target
      × (resolve task_type target.platform ≡ ok r)
unfolding resolve_for_target
admitted task_type sub target r e =
    ground (arith, e, ==_iff target.platform "linux-bsp", ==_iff target.platform "mcu-rtos")

-- A task with a declared target gets a route only if the target has one of the two platforms and the
-- subsystem names no other family; the route is then that of the platform, whatever the subsystem
-- is called, and does not hold the capability of the other family.
pub resolve_for_target-Agrees :
    (task_type sub : String) (target : TargetContext) (r : Route)
    → resolve_for_target task_type sub (some target) ≡ ok r
    → ((target.platform ≡ "linux-bsp") ⊎ (target.platform ≡ "mcu-rtos"))
      × Agrees sub target
      × (resolve task_type target.platform ≡ ok r)
      × (contains r.capability_ids (foreign target.platform) ≡ false)
resolve_for_target-Agrees task_type sub target r e =
    let (p, a, q) = admitted task_type sub target r e in
    (
      p,
      a,
      q,
      elim p [
        | inl l ↦ rw l (resolve_linux task_type r (subst (λ x. resolve task_type x ≡ ok r) l q))
        | inr l ↦ rw l (resolve_mcu task_type r (subst (λ x. resolve task_type x ≡ ok r) l q))
      ],
    )
