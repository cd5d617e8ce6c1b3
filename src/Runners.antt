-- ===== src/Runners.antt =====
-- Runner objects, modules/gitea/src/runner.cpp: who removes a runner from the forge.
mod Examples
use gar_virt.Prelude.{
  if◌then◌else◌, ℕ, zero, suc, ◌≡◌, refl, Bool, true, false, List, [], ◌∷◌, ◌++◌, append-nil,
}

-- The fields of `Runner` that the destructor reads.
pub record RunnerObject : Type 0 where
  pub moved : Bool
  pub id : ℕ

-- The destructor: the runners that it removes.
unfoldable pub destroy : RunnerObject → List ℕ
destroy runner = if runner.moved then [] else runner.id ∷ []

-- The move constructor: the new object and what is left of the other.
unfoldable pub move_construct : RunnerObject → RunnerObject × RunnerObject
move_construct other = (record { moved = false; id = other.id }, record other { moved = true })

-- The move assignment of another object: this one and what is left of the other.
unfoldable pub move_assign : RunnerObject → RunnerObject → RunnerObject × RunnerObject
move_assign this other = (record this { id = other.id }, record other { moved = true })

-- The objects of `n` moves, each from the object of the one before.
abbrev pub chain : ℕ → RunnerObject → List RunnerObject
chain zero runner = runner ∷ []
chain (suc n) runner = (move_construct runner).1 ∷ chain n (move_construct runner).0

abbrev pub removals : List RunnerObject → List ℕ
removals [] = []
removals (runner ∷ runners) = destroy runner ++ removals runners

chain-removals :
    (n : ℕ) (runner : RunnerObject)
    → runner.moved ≡ false
    → removals (chain n runner) ≡ runner.id ∷ []
unfolding destroy move_construct
chain-removals zero runner owner = rw owner refl
chain-removals (suc n) runner owner = chain-removals n (move_construct runner).0 refl

-- A runner that is handed on by move constructions is removed once, however often it is handed on. With a
-- move assignment its removal depends on the object that it is assigned to: the runner of that
-- one is never removed, and the assigned one only if that object had not been moved from.
pub moves_lem :
    (n : ℕ) (runner this : RunnerObject)
    → runner.moved ≡ false
    → (removals (chain n runner) ≡ runner.id ∷ [])
      × (removals ((move_assign this runner).0 ∷ (move_assign this runner).1 ∷ [])
          ≡ (if this.moved then [] else runner.id ∷ []))
unfolding destroy move_assign
moves_lem n runner this owner = (chain-removals n runner owner, append-nil _)
