-- ===== src/Outbox/Retries.antt =====
-- How long a retry waits, and what becomes of a message (internal/outbox/dispatcher.go).
-- The delay doubled that many times.
use engineering_platform.Prelude.{
  ==_iff, Error, Result, String, arith, err, false, if◌then◌else◌, ltb, nat_eq, ok, refl, string_eq,
  suc, zero, ℕ, ◌*◌, ◌-◌, ◌<◌, ◌≡◌, ◌≤◌,
}
use engineering_platform.Outbox.{
  Message, day, double_up, is_outcome_unknown, pending, resolve, retry_delay, validate,
}

abbrev pub doubled : ℕ → ℕ → ℕ
doubled zero base = base
doubled (suc n) base = doubled n (base * 2)

abbrev pub capped : ℕ → ℕ → ℕ
capped maximum n = if ltb maximum n then maximum else n

doubled_grows : (n base : ℕ) → base ≤ doubled n base
doubled_grows zero base = omega arith
doubled_grows (suc n) base = let h = doubled_grows n (base * 2) in omega (arith, h)

double_up-capped : (n base maximum : ℕ) → double_up n base maximum ≡ capped maximum (doubled n base)
unfolding double_up
double_up-capped zero base maximum = refl
double_up-capped (suc n) base maximum =
    ground (arith, double_up-capped n (base * 2) maximum, doubled_grows n (base * 2))

-- The delay before the next attempt is the base delay doubled once for each attempt after the
-- first, up to the maximum.
pub retry_delay-capped :
    (base maximum attempt : ℕ)
    → retry_delay base maximum attempt ≡ capped maximum (doubled (attempt - 1) base)
unfolding retry_delay
retry_delay-capped base maximum attempt = double_up-capped (attempt - 1) base maximum

retry_delay_bounds :
    (base maximum attempt : ℕ)
    → 0 < base
    → base ≤ maximum
    → (0 < retry_delay base maximum attempt) × (retry_delay base maximum attempt ≤ maximum)
retry_delay_bounds base maximum attempt p q =
    rw (retry_delay-capped base maximum attempt)
      (ground (arith, doubled_grows (attempt - 1) base, p, q))

-- Under the bounds that the dispatcher has checked, whatever the handler answers, the resolution of
-- a message is one that `Validate` accepts; and the message is only to be tried again if its topic
-- is the one claimed, attempts are left, and the handler's error does not leave the outcome unknown.
pub resolve-validate :
    (text : Error → String) (delay max_delay max_attempts : ℕ)
    (handle : Message → Result (Unit {0})) (topic : String) (current : Message)
    → 0 < delay
    → delay ≤ max_delay
    → max_delay ≤ day
    → let r = resolve text delay max_delay max_attempts handle topic current in
      (validate r ≡ ok tt)
      × (r.state ≡ pending
          → (current.topic ≡ topic)
            × (current.attempt_count < max_attempts)
            × ((e : Error) → handle current ≡ err e → is_outcome_unknown e ≡ false))
unfolding resolve validate
resolve-validate text delay max_delay max_attempts handle topic current p q u =
    let b = retry_delay_bounds delay max_delay current.attempt_count p q in
    (
      ground (arith, b, u),
      λ h. (
        ground (arith, h, ==_iff current.topic topic),
        ground (arith, h),
        λ e k. ground (arith, h, k),
      ),
    )
