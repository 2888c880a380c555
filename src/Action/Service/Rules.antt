-- ===== src/Action/Service/Rules.antt =====
-- Rules for the building blocks of the action service's methods.
use engineering_platform.Prelude.{
  Bool, Error, Exec, List, Result, Triple, arith, err, false, ok, refl, true, ℕ, ◌≡◌,
}
use engineering_platform.Action.{Operation, Request, State}
use engineering_platform.Action.Service.{Asked, World, moved, on_ledger, stop_if, when_ok}

module _ {S : Type 0} where
  pub still-moved :
      (tag : Error → Error) (to : State) (now : ℕ) (op : Operation) (w : World S)
      → (moved tag to now op w).1 ≡ w
  still-moved tag to now op w = ground arith

  pub still-stop_if : (b : Bool) (e : Error) (w : World S) → (stop_if b e w).1 ≡ w
  still-stop_if true e w = refl
  still-stop_if false e w = refl

  pub on_ledger-Asked :
      {A : Type 0} (m : Exec S A) (calls : List Request) (seen : List Operation) (w : World S)
      → Asked calls seen w
      → Asked calls seen (on_ledger m w).1
  on_ledger-Asked m calls seen w h = h

  pub Triple-when_ok :
      {A B : Type 0} {P : World S → Type 0} {Q : B → World S → Type 0}
      {E : Error → World S → Type 0} (r : Result A) {f : A → Exec (World S) B}
      {g : Error → Exec (World S) B}
      → ((a : A) → Triple P (f a) Q E)
      → ((e : Error) → Triple P (g e) Q E)
      → Triple P (when_ok r f g) Q E
  Triple-when_ok (ok a) t u = t a
  Triple-when_ok (err e) t u = u e
