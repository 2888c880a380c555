-- ===== src/Prelude/Maps.antt =====
-- Go's maps, as functions from keys. The store never iterates over one, so no order is modelled.
use mathlib.Core.Option.{Option, none, some}
use engineering_platform.Prelude.Tests.{Eq, ◌==◌, if◌then◌else◌}

-- `map[K]V`, with `none` for a missing key.
abbrev pub Map : Type 0 → Type 0 → Type 0
Map K V = K → Option V

module _ {K V : Type 0} where
  -- make(map[K]V)
  abbrev pub empty : Map K V
  empty k = none

module _ {K V : Type 0} ⦃e : Eq K⦄ where
  -- m[k] = v
  abbrev pub insert : K → V → Map K V → Map K V
  insert k v m j = if k == j then some v else m j
