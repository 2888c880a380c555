-- ===== src/Session/Order.antt =====
-- The order of steering commands (internal/session/model.go).
use mathlib.Core.Path.{subst}
use engineering_platform.Prelude.{
  Bool-cases, List, [], arith, false, if◌then◌else◌, inl, inr, is_ok, true, ℕ, ◌<◌, ◌∷◌, ◌≡◌, ◌≢◌,
  ◌⊎◌,
}
use engineering_platform.Session.{Session, SteeringCommand, apply_steering, human, takeover}

unfoldable pub steer : List SteeringCommand → Session → List ℕ × Session
steer [] s = ([], s)
steer (c ∷ cs) s =
    let (r, s') = apply_steering c s in
    let (done, end) = steer cs s' in (if is_ok r then c.sequence ∷ done else done, end)

-- Every number is above the bound before it.
abbrev pub Ascending : ℕ → List ℕ → Type 0
Ascending n [] = Unit
Ascending n (k ∷ ks) = (n < k) × Ascending k ks

apply_steering-result :
    (c : SteeringCommand) (s : Session)
    → (is_ok (apply_steering c s).0 ≡ true
        → (s.last_sequence < c.sequence) × ((apply_steering c s).1.last_sequence ≡ c.sequence))
      × (is_ok (apply_steering c s).0 ≡ false → (apply_steering c s).1 ≡ s)
unfolding apply_steering
apply_steering-result c s = ground arith

-- Whatever commands a session is given, the sequence numbers of those that it accepts rise, from
-- above the last one that it had accepted before.
pub steer-Ascending :
    (cs : List SteeringCommand) (s : Session) → Ascending s.last_sequence (steer cs s).0
unfolding steer
steer-Ascending [] s = tt
steer-Ascending (c ∷ cs) s =
    let (a, b) = apply_steering-result c s in
    let s' = (apply_steering c s).1 in
    let ih = steer-Ascending cs s' in
    elim (Bool-cases (is_ok (apply_steering c s).0)) [
      | inl t ↦
          let q : (s.last_sequence < c.sequence) × Ascending c.sequence (steer cs s').0 =
            ((a t).0, subst (λ n. Ascending n (steer cs s').0) (a t).1 ih) in
          rw t q
      | inr f ↦ rw f (subst (λ x. Ascending x.last_sequence (steer cs s').0) (b f) ih)
    ]

apply_steering_refused :
    (c : SteeringCommand) (s : Session)
    → (c.execution_epoch ≢ s.execution_epoch) ⊎ (s.owner ≡ human)
    → ((apply_steering c s).1 ≡ s) × (is_ok (apply_steering c s).0 ≡ false)
unfolding apply_steering
apply_steering_refused c s h = ground arith

-- After a takeover the runtime cannot steer: every command is refused, under the old epoch and
-- under the new one, and the session is left as it is.
pub takeover_silences :
    (epoch : ℕ) (s : Session) (c : SteeringCommand)
    → is_ok (takeover epoch s).0 ≡ true
    → (is_ok (apply_steering c (takeover epoch s).1).0 ≡ false)
      × ((apply_steering c (takeover epoch s).1).1 ≡ (takeover epoch s).1)
unfolding takeover
takeover_silences epoch s c h = ground (arith, apply_steering_refused c (takeover epoch s).1)
