-- ===== src/Prelude/Keys.antt =====
-- Lists of keys that are all different, as a loop with a set of the keys seen so far finds them.
use mathlib.Core.Path.{◌≡◌, refl}
use mathlib.Core.Logic.{◌↔◌}
use mathlib.Core.Bool.{false}
use mathlib.Core.List.{List, [], ◌∷◌}
use native.Mathlib.Omega.{arith}
use engineering_platform.Prelude.Tests.{==_iff, Eq, nat_eq, string_eq}
use engineering_platform.Prelude.Lists.{All, contains}

module _ {A : Type 0} ⦃e : Eq A⦄ where
  abbrev pub Distinct : List A → Type 0
  Distinct [] = Unit
  Distinct (k ∷ ks) = (contains ks k ≡ false) × Distinct ks

  -- None of the keys is among those seen.
  abbrev pub Fresh : List A → List A → Type 0
  Fresh seen = All (λ k. contains seen k ≡ false)

  pub Fresh-empty : (ks : List A) → Fresh [] ks
  unfolding contains
  Fresh-empty [] = tt
  Fresh-empty (k ∷ ks) = (refl, Fresh-empty ks)

  -- Seeing one more key asks that it is not among the rest.
  pub Fresh-see :
      (k : A) (seen ks : List A) → Fresh (k ∷ seen) ks ↔ ((contains ks k ≡ false) × Fresh seen ks)
  unfolding contains
  Fresh-see k seen [] = ground arith
  Fresh-see k seen (x ∷ ks) = ground (arith, Fresh-see k seen ks, ==_iff k x, ==_iff x k)
