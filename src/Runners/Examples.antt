-- ===== src/Runners/Examples.antt =====
-- A runner that is moved.
use gar_virt.Prelude.{◌≡◌, refl, true, false, [], ◌∷◌}
use gar_virt.Runners.{RunnerObject, move_assign, chain, removals, moves_lem}

abbrev runner : RunnerObject
runner = record { moved = false; id = 5 }

abbrev this : RunnerObject
this = record { moved = true; id = 4 }

moves_lem_example :
    (removals (chain 3 runner) ≡ 5 ∷ [])
    × (removals ((move_assign this runner).0 ∷ (move_assign this runner).1 ∷ []) ≡ [])
moves_lem_example = moves_lem 3 runner this refl
