-- ===== src/Config/Cycles.antt =====
-- `buildInheritanceGraph` and `validateInheritanceCycles` of internal/config/normalize.go.
pub mod Steps
pub mod Accepts
pub mod Rejects
pub mod Total
use mergeway_cli.Prelude.{
  ℕ, zero, suc, String, Bool, true, false, Option, none, some, List, [], ◌∷◌, ◌++◌, ◌==◌,
  if◌then◌else◌, length, Result, ok, err, ◌>>=◌,
}
use mergeway_cli.Go.Map.{Map, get, put, keys}
use mergeway_cli.Go.Order.{sort_strings}

pub record InheritanceGraph : Type 0 where
  pub parent : Map String
  pub children : Map (List String)

-- `statePending` is the zero of the map's values: a name that the map lacks.
pub data VisitState : Type 0 where
  pending visiting done : VisitState

-- `out_of_fuel` is not an error of the program; `Cycles.Total` shows that it does not arise.
pub data CycleError : Type 0 where
  cyclic_inheritance : List String → CycleError
  out_of_fuel : CycleError

abbrev pub States : Type 0
States = Map VisitState

-- `state[name]`
abbrev pub state_of : States → String → VisitState
state_of st name = elim (get st name) [ none ↦ pending | some s ↦ s ]

-- `graph.parent[name]`, empty where there is none
abbrev pub parent_of : InheritanceGraph → String → String
parent_of g name = elim (get g.parent name) [ none ↦ "" | some p ↦ p ]

-- `stack[cycleStart:]`, from the first place where `name` stands
unfoldable pub from_first : String → List String → List String
from_first name [] = []
from_first name (x ∷ xs) = let rest = from_first name xs in if x == name then x ∷ xs else rest

-- The closure `visit`. It leaves `stack` as it found it, unless it fails.
unfoldable pub visit :
    ℕ → InheritanceGraph → List String → String → States → Result CycleError States
visit zero g stack name st = err out_of_fuel
visit (suc fuel) g stack name st = elim (state_of st name) [
  | done ↦ ok st
  | visiting ↦ err (cyclic_inheritance (from_first name stack ++ name ∷ []))
  | pending ↦
      let up = visit fuel g (stack ++ name ∷ []) (parent_of g name) (put st name visiting) in
      (if parent_of g name == "" then ok (put st name visiting) else up) >>= λ st'.
      ok (put st' name done)
]

unfoldable pub visit_all : ℕ → InheritanceGraph → List String → States → Result CycleError States
visit_all fuel g [] st = ok st
visit_all fuel g (name ∷ names) st = visit fuel g [] name st >>= visit_all fuel g names

-- `validateInheritanceCycles`. A chain of calls has each name on the stack once.
unfoldable pub validate_inheritance_cycles : InheritanceGraph → Result CycleError States
validate_inheritance_cycles g =
    visit_all (suc (length g.children)) g (sort_strings (keys g.children)) []
