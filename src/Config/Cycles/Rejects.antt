-- ===== src/Config/Cycles/Rejects.antt =====
-- A graph that `validateInheritanceCycles` rejects has a cycle.
use mergeway_cli.Prelude.{
  ℕ, zero, suc, String, ◌≡◌, refl, ◌≢◌, List, [], ◌∷◌, ◌++◌, ◌==◌, ok, err, >>=-eq-ok, Result-cases,
  arith, Bool-cases, inl, inr, text-cases, sym, ◌∙◌, not-eq→ne, ok_inj, err-ne-ok, subst,
}
use mergeway_cli.Go.Map.{get, put, keys}
use mergeway_cli.Go.Order.{sort_strings}
use mergeway_cli.Config.Cycles.{
  InheritanceGraph, visiting, done, cyclic_inheritance, States, state_of, parent_of, visit,
  visit_all, validate_inheritance_cycles,
}
use mergeway_cli.Config.Cycles.Steps.{
  state-cases, visit_root, visit_child, visit_visiting, visit_done, state_of-put,
}
use mergeway_cli.Config.Cycles.Accepts.{Reaches, parent, Reaches-trans}

-- A successful visit leaves no name in the middle of a visit that was not so before.
visit-Calmer :
    (fuel : ℕ) (g : InheritanceGraph) (stack : List String) (name : String) (st : States)
    {st' : States}
    → visit fuel g stack name st ≡ ok st'
    → (s : String) → state_of st' s ≡ visiting
    → state_of st s ≡ visiting
unfolding visit
visit-Calmer zero g stack name st e s v = cc
visit-Calmer (suc fuel) g stack name st {st'} e s v = elim (state-cases (state_of st name)) [
  | inl p ↦ elim (Bool-cases (parent_of g name == "")) [
    | inl r ↦
        let q = ok_inj (sym (visit_root fuel g stack name st p r) ∙ e) in
        ground (
          arith,
          subst (λ x. state_of x s ≡ visiting) (sym q) v,
          state_of-put (put st name visiting) name s done,
          state_of-put st name s visiting,
        )
    | inr r ↦
        let (st1, up, fin) = >>=-eq-ok _ _ (sym (visit_child fuel g stack name st p r) ∙ e) in
        let old =
          visit-Calmer fuel g (stack ++ name ∷ []) (parent_of g name) (put st name visiting) up s in
        ground (
          arith,
          old,
          subst (λ x. state_of x s ≡ visiting) (sym (ok_inj fin)) v,
          state_of-put st1 name s done,
          state_of-put st name s visiting,
        )
  ]
  | inr (inl w) ↦ absurd (err-ne-ok (sym (visit_visiting fuel g stack name st w) ∙ e))
  | inr (inr d) ↦
      subst (λ x. state_of x s ≡ visiting)
        (sym (ok_inj (sym (visit_done fuel g stack name st d) ∙ e))) v
]

-- What is being visited has the current name among its ancestors.
abbrev AreBelow : InheritanceGraph → States → String → Type 0
AreBelow g st name = (s : String) → state_of st s ≡ visiting → Reaches g s name

AreBelow-parent :
    (g : InheritanceGraph) (st : States) (name : String)
    → AreBelow g st name
    → parent_of g name ≢ ""
    → AreBelow g (put st name visiting) (parent_of g name)
AreBelow-parent g st name below ne s v = elim (text-cases name s) [
  | inl q ↦ subst (λ x. Reaches g x (parent_of g name)) q (parent refl ne)
  | inr n ↦
      Reaches-trans (below s (ground (arith, n, v, state_of-put st name s visiting)))
        (parent refl ne)
]

visit-cycle :
    (fuel : ℕ) (g : InheritanceGraph) (stack : List String) (name : String) (st : States)
    (c : List String)
    → AreBelow g st name
    → visit fuel g stack name st ≡ err (cyclic_inheritance c)
    → (n : String) × Reaches g n n
unfolding visit
visit-cycle zero g stack name st c below e = absurd (cc)
visit-cycle (suc fuel) g stack name st c below e = elim (state-cases (state_of st name)) [
  | inl p ↦ elim (Bool-cases (parent_of g name == "")) [
    | inl r ↦ absurd (err-ne-ok (sym e ∙ visit_root fuel g stack name st p r))
    | inr r ↦
        let ne = not-eq→ne (parent_of g name) "" r in
        elim (Result-cases
          (visit fuel g (stack ++ name ∷ []) (parent_of g name) (put st name visiting))) [
            | inl (st', q) ↦ absurd (ground (arith, visit_child fuel g stack name st p r, q, e))
            | inr (c', q) ↦
                visit-cycle fuel g (stack ++ name ∷ []) (parent_of g name) (put st name visiting) c
                  (AreBelow-parent g st name below ne)
                  (ground (arith, visit_child fuel g stack name st p r, q, e))
          ]
  ]
  | inr (inl v) ↦ (name, below name v)
  | inr (inr d) ↦ absurd (err-ne-ok (sym e ∙ visit_done fuel g stack name st d))
]

visit_all-cycle :
    (fuel : ℕ) (g : InheritanceGraph) (names : List String) (st : States) (c : List String)
    → ((s : String) → state_of st s ≢ visiting)
    → visit_all fuel g names st ≡ err (cyclic_inheritance c)
    → (n : String) × Reaches g n n
unfolding visit_all
visit_all-cycle fuel g [] st c calm e = absurd (cc)
visit_all-cycle fuel g (n ∷ names) st c calm e = elim (Result-cases (visit fuel g [] n st)) [
  | inl (st', q) ↦
      visit_all-cycle fuel g names st' c (λ s v. calm s (visit-Calmer fuel g [] n st q s v))
        (ground (arith, q, e))
  | inr (c', q) ↦ visit-cycle fuel g [] n st c (λ s v. absurd (calm s v)) (ground (arith, q, e))
]

-- Where `validateInheritanceCycles` reports a cycle there is one: some name is among its own
-- ancestors.
pub validate_inheritance_cycles-cycle :
    (g : InheritanceGraph) (c : List String)
    → validate_inheritance_cycles g ≡ err (cyclic_inheritance c)
    → (n : String) × Reaches g n n
unfolding validate_inheritance_cycles get
validate_inheritance_cycles-cycle g c e =
    visit_all-cycle _ g (sort_strings (keys g.children)) [] c (λ s v. cc) e
