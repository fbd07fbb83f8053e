-- ===== src/Config/Cycles/Steps.antt =====
-- `visit` of internal/config/normalize.go, branch by branch.
use mergeway_cli.Prelude.{
  ℕ, suc, String, ◌≡◌, refl, true, false, List, [], ◌∷◌, ◌++◌, ◌==◌, if◌then◌else◌, ok, err, ◌>>=◌,
  ◌⊎◌, inl, inr, arith, member, ◌≢◌,
}
use mergeway_cli.Go.Map.{put, get-put, keys}
use mergeway_cli.Config.Cycles.{
  InheritanceGraph, VisitState, pending, visiting, done, cyclic_inheritance, States, state_of,
  parent_of, from_first, visit,
}

pub state-cases : (s : VisitState) → (s ≡ pending) ⊎ ((s ≡ visiting) ⊎ (s ≡ done))
state-cases pending = inl refl
state-cases visiting = inr (inl refl)
state-cases done = inr (inr refl)

module _ (fuel : ℕ) (g : InheritanceGraph) (stack : List String) (name : String) (st : States) where
  pub visit_done : state_of st name ≡ done → visit (suc fuel) g stack name st ≡ ok st
  unfolding visit
  visit_done h = ground arith

  pub visit_visiting :
      state_of st name ≡ visiting
      → visit (suc fuel) g stack name st
        ≡ err (cyclic_inheritance (from_first name stack ++ name ∷ []))
  unfolding visit
  visit_visiting h = ground arith

  pub visit_root :
      state_of st name ≡ pending
      → (parent_of g name == "") ≡ true
      → visit (suc fuel) g stack name st ≡ ok (put (put st name visiting) name done)
  unfolding visit
  visit_root h r = ground arith

  pub visit_child :
      state_of st name ≡ pending
      → (parent_of g name == "") ≡ false
      → visit (suc fuel) g stack name st ≡ (
          visit fuel g (stack ++ name ∷ []) (parent_of g name) (put st name visiting) >>= λ st'.
          ok (put st' name done))
  unfolding visit
  visit_child h r = ground arith

pub state_of-put :
    (st : States) (name other : String) (s : VisitState)
    → state_of (put st name s) other ≡ (if name == other then s else state_of st other)
state_of-put st name other s = ground (arith, get-put st name other s)

-- The names of the parents are names of the graph, as `buildInheritanceGraph` checks.
abbrev pub IsClosed : InheritanceGraph → Type 0
IsClosed g =
    (name : String) → parent_of g name ≢ "" → member (keys g.children) (parent_of g name) ≡ true
