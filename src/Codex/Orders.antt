-- ===== src/Codex/Orders.antt =====
-- What was ordered by the controls of a run, the command and the payload of each, under the changes
-- that internal/store/postgres/codex_controls.go makes to the rows.
use engineering_platform.Session
use engineering_platform.Codex.{
  ControlDelivery, ControlPayload, TurnStatus, binding_eq, close_eq, delivery_state_eq, kind_eq,
  queued, token_eq, turn_eq,
}
use engineering_platform.Codex.Controls.{
  by_sequence, close_command, close_commands, enter, find_command, first_queued, set_command,
}
use engineering_platform.Prelude.{
  ==_iff, ==_refl, All, Bool-cases, Distinct, List, String, [], ap, arith, contains, inl, inr,
  length, nat_eq, refl, some, string_eq, true, ℕ, ◌++◌, ◌+◌, ◌<◌, ◌==◌, ◌∷◌, ◌≡◌,
}

pub record Order : Type 0 where
  pub command : Session.SteeringCommand
  pub payload : ControlPayload

abbrev pub order_of : ControlDelivery → Order
order_of d = record { command = d.command; payload = d.payload }

abbrev pub orders_of : List ControlDelivery → List Order
orders_of [] = []
orders_of (d ∷ ds) = order_of d ∷ orders_of ds

pub orders_of-append :
    (xs ys : List ControlDelivery) → orders_of (xs ++ ys) ≡ orders_of xs ++ orders_of ys
orders_of-append [] ys = refl
orders_of-append (x ∷ xs) ys = ap (λ l. order_of x ∷ l) (orders_of-append xs ys)

pub length-orders_of : (xs : List ControlDelivery) → length (orders_of xs) ≡ length xs
length-orders_of [] = refl
length-orders_of (x ∷ xs) = omega (arith, length-orders_of xs)

-- The sequence numbers rise, and each is above the one before.
abbrev pub Rising : ℕ → List Order → Type 0
Rising last [] = Unit {0}
Rising last (o ∷ os) = (last < o.command.sequence) × Rising o.command.sequence os

abbrev pub ids : List Order → List String
ids [] = []
ids (o ∷ os) = o.command.id ∷ ids os

pub find_command-id :
    (id : String) (xs : List ControlDelivery) (d : ControlDelivery)
    → find_command id xs ≡ some d
    → d.command.id ≡ id
unfolding find_command
find_command-id id [] d e = cc
find_command-id id (x ∷ xs) d e = elim (Bool-cases (x.command.id == id)) [
  | inl hit ↦ ground (arith, e, hit, ==_iff x.command.id id)
  | inr miss ↦ find_command-id id xs d (rw miss at e)
]

pub orders_of-set_command :
    (id : String) (xs : List ControlDelivery) (d d' : ControlDelivery)
    → find_command id xs ≡ some d
    → order_of d' ≡ order_of d
    → orders_of (set_command id d' xs) ≡ orders_of xs
unfolding find_command set_command
orders_of-set_command id [] d d' e o = refl
orders_of-set_command id (x ∷ xs) d d' e o = elim (Bool-cases (x.command.id == id)) [
  | inl hit ↦ rw hit (ground (arith, e, hit, o))
  | inr miss ↦
      rw miss (ap (λ l. order_of x ∷ l) (orders_of-set_command id xs d d' (rw miss at e) o))
]

pub order_of-close_command :
    (turn : TurnStatus) (now : ℕ) (d : ControlDelivery)
    → order_of (close_command turn now d) ≡ order_of d
unfolding close_command
order_of-close_command turn now d = ground arith

pub orders_of-close_commands :
    (turn : TurnStatus) (clock : ℕ → ℕ) (xs : List ControlDelivery)
    → orders_of (close_commands turn clock xs) ≡ orders_of xs
unfolding close_commands
orders_of-close_commands turn clock [] = refl
orders_of-close_commands turn clock (x ∷ xs) =
    rw (order_of-close_command turn (clock 0) x)
      (ap (λ l. order_of x ∷ l) (orders_of-close_commands turn (λ n. clock (n + 1)) xs))

enter_first :
    (d : ControlDelivery) (xs : List ControlDelivery)
    → Rising d.command.sequence (orders_of xs)
    → enter d xs ≡ d ∷ xs
unfolding enter
enter_first d [] h = refl
enter_first d (x ∷ xs) h = ground (arith, h)

-- What rises is in order.
pub by_sequence-Rising :
    (last : ℕ) (xs : List ControlDelivery) → Rising last (orders_of xs) → by_sequence xs ≡ xs
unfolding by_sequence
by_sequence-Rising last [] h = refl
by_sequence-Rising last (x ∷ xs) h =
    rw (by_sequence-Rising x.command.sequence xs h.1) (enter_first x xs h.1)

pub Rising-append :
    (last : ℕ) (os : List Order) (o : Order)
    → Rising last os
    → All (λ p. p.command.sequence < o.command.sequence) os
    → last < o.command.sequence
    → Rising last (os ++ o ∷ [])
Rising-append last [] o h a b = (b, tt)
Rising-append last (p ∷ os) o h a b = (h.0, Rising-append p.command.sequence os o h.1 a.1 a.0)

pub first_queued-found :
    (xs : List ControlDelivery) (d : ControlDelivery)
    → Distinct (ids (orders_of xs))
    → first_queued xs ≡ some d
    → (find_command d.command.id xs ≡ some d) × (contains (ids (orders_of xs)) d.command.id ≡ true)
unfolding first_queued find_command contains
first_queued-found [] d h e = cc
first_queued-found (x ∷ xs) d h e = elim (Bool-cases (x.state == queued)) [
  | inl hit ↦ ground (arith, e, hit, ==_refl x.command.id)
  | inr miss ↦
      let (found, within) = first_queued-found xs d h.1 (rw miss at e) in
      ground (arith, found, within, h.0, ==_iff x.command.id d.command.id)
]
