-- ===== src/Recovery/Gate.antt =====
-- How recovery mode gates irreversible actions (internal/recovery/manager.go).
-- What may happen to the manager after recovery has begun, but for a completion that is reconciled.
use engineering_platform.Prelude.{
  List, [], arith, false, is_ok, ok, refl, true, ℕ, ◌+◌, ◌<◌, ◌^◌, ◌↔◌, ◌∷◌, ◌≡◌,
}
use engineering_platform.Recovery.{
  Manager, authorize_irreversible, begin, check_epoch, complete, is_normal, normal,
}

pub data Event : Type 0 where
  begin_again : Event
  complete_unreconciled : ℕ → Event

pub step : Event → Manager → Manager
step begin_again m = begin m
step (complete_unreconciled epoch) m = (complete epoch false m).1

pub steps : List Event → Manager → Manager
unfolding step
steps [] m = m
steps (e ∷ es) m = steps es (step e m)

step_blocked :
    (e : Event) (m : Manager) → is_normal m.mode ≡ false → is_normal (step e m).mode ≡ false
unfolding step begin complete check_epoch
step_blocked begin_again m h = refl
step_blocked (complete_unreconciled epoch) m h = ground arith

steps_blocked :
    (es : List Event) (m : Manager) → is_normal m.mode ≡ false → is_normal (steps es m).mode ≡ false
unfolding steps
steps_blocked [] m h = h
steps_blocked (e ∷ es) m h = steps_blocked es (step e m) (step_blocked e m h)

-- An irreversible action is authorised exactly under the current epoch and outside recovery.
pub authorize_irreversible_exact :
    (m : Manager) (epoch : ℕ)
    → (authorize_irreversible m epoch ≡ ok tt) ↔ ((epoch ≡ m.epoch) × (m.mode ≡ normal))
unfolding authorize_irreversible check_epoch
authorize_irreversible_exact m epoch = ground arith

blocked :
    (m : Manager) (epoch : ℕ)
    → is_normal m.mode ≡ false
    → is_ok (authorize_irreversible m epoch) ≡ false
unfolding authorize_irreversible check_epoch
blocked m epoch h = ground arith

-- From the beginning of a recovery no irreversible action is authorised under any epoch, until a
-- completion that has reconciled what happened.
pub begin_blocks :
    (m : Manager) (es : List Event) (epoch : ℕ)
    → is_ok (authorize_irreversible (steps es (begin m)) epoch) ≡ false
unfolding begin
begin_blocks m es epoch = blocked (steps es (begin m)) epoch (steps_blocked es (begin m) refl)

-- A completion with the epoch that a recovery began and a reconciled past brings back the normal
-- mode under that epoch, so that the epoch from before it, if below 2 ^ 64 - 1, stays refused.
pub recovered_fences :
    (m : Manager)
    → m.epoch + 1 < 2 ^ 64
    → let m' = (complete (m.epoch + 1) true (begin m)).1 in
      (authorize_irreversible m' (m.epoch + 1) ≡ ok tt)
      × (is_ok (authorize_irreversible m' m.epoch) ≡ false)
unfolding authorize_irreversible check_epoch complete begin
recovered_fences m h = ground arith
