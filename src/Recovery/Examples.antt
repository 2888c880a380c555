-- ===== src/Recovery/Examples.antt =====
-- The recovery manager at concrete values.
use engineering_platform.Prelude.{[], arith, false, is_ok, ok, true, ◌∷◌, ◌≡◌}
use engineering_platform.Recovery.{Manager, authorize_irreversible, begin, complete, normal}
use engineering_platform.Recovery.Gate.{
  begin_again, begin_blocks, complete_unreconciled, recovered_fences, steps,
}

abbrev manager : Manager
manager = record { epoch = 4; mode = normal }

begin_blocks_example :
    is_ok (
      authorize_irreversible (steps (begin_again ∷ complete_unreconciled 6 ∷ []) (begin manager)) 6)
    ≡ false
begin_blocks_example = begin_blocks manager (begin_again ∷ complete_unreconciled 6 ∷ []) 6

recovered_fences_example :
    let m' = (complete 5 true (begin manager)).1 in
    (authorize_irreversible m' 5 ≡ ok tt) × (is_ok (authorize_irreversible m' 4) ≡ false)
recovered_fences_example = recovered_fences manager (omega arith)
