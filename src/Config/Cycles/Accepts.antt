-- ===== src/Config/Cycles/Accepts.antt =====
-- A graph that `validateInheritanceCycles` accepts has no cycle.
use mergeway_cli.Prelude.{
  ℕ, zero, suc, String, ◌≡◌, refl, ◌≢◌, List, [], ◌∷◌, ◌++◌, ◌==◌, ok, >>=-eq-ok, ok_inj, arith,
  eq_iff, Bool-cases, inl, inr, In, text-cases, subst, sym, ap, ◌∙◌, ◌⊎◌, not-eq→ne, err-ne-ok,
  In-cons_cases,
}
use mergeway_cli.Go.Map.{get, put, keys, get-put}
use mergeway_cli.Go.Order.{sort_strings, In-sort_strings}
use mergeway_cli.Config.Cycles.Steps.{
  state-cases, visit_root, visit_child, visit_visiting, visit_done,
}
use mergeway_cli.Config.Cycles.{
  InheritanceGraph, visiting, done, States, state_of, parent_of, visit, visit_all,
  validate_inheritance_cycles,
}

-- The chain of parents from `name` ends.
pub data IsGrounded (g : InheritanceGraph) : String → Type 0 where
  root : {name : String} → parent_of g name ≡ "" → IsGrounded g name
  child :
      {name parent : String}
      → parent_of g name ≡ parent
      → parent ≢ ""
      → IsGrounded g parent
      → IsGrounded g name

abbrev AreGrounded : InheritanceGraph → States → Type 0
AreGrounded g st = (name : String) → state_of st name ≡ done → IsGrounded g name

put-visiting :
    (g : InheritanceGraph) (st : States) (name : String)
    → AreGrounded g st
    → AreGrounded g (put st name visiting)
put-visiting g st name h n e = h n (ground (arith, e, get-put st name n visiting))

put-done :
    (g : InheritanceGraph) (st : States) (name : String)
    → IsGrounded g name
    → AreGrounded g st
    → AreGrounded g (put st name done)
put-done g st name own h n e = elim (text-cases name n) [
  | inl q ↦ subst (IsGrounded g) q own
  | inr q ↦ h n (ground (arith, e, q, get-put st name n done))
]

visit-IsGrounded :
    (fuel : ℕ) (g : InheritanceGraph) (stack : List String) (name : String) (st : States)
    {st' : States}
    → AreGrounded g st
    → visit fuel g stack name st ≡ ok st'
    → IsGrounded g name × AreGrounded g st'
unfolding visit
visit-IsGrounded zero g stack name st h e = cc
visit-IsGrounded (suc fuel) g stack name st {st'} h e = elim (state-cases (state_of st name)) [
  | inl p ↦ elim (Bool-cases (parent_of g name == "")) [
    | inl r ↦
        let own = root ((eq_iff (parent_of g name) "").0 r) in
        (
          own,
          subst (AreGrounded g) (ok_inj (sym (visit_root fuel g stack name st p r) ∙ e))
              (put-done g (put st name visiting) name own (put-visiting g st name h)),
        )
    | inr r ↦
        let (st1, up, fin) = >>=-eq-ok _ _ (sym (visit_child fuel g stack name st p r) ∙ e) in
        let (above, h1) =
          visit-IsGrounded fuel g (stack ++ name ∷ []) (parent_of g name) (put st name visiting)
            (put-visiting g st name h) up in
        let own = child refl (not-eq→ne (parent_of g name) "" r) above in
        (own, subst (AreGrounded g) (ok_inj fin) (put-done g st1 name own h1))
  ]
  | inr (inl v) ↦ absurd (err-ne-ok (sym (visit_visiting fuel g stack name st v) ∙ e))
  | inr (inr d) ↦
      (h name d, subst (AreGrounded g) (ok_inj (sym (visit_done fuel g stack name st d) ∙ e)) h)
]

visit_all-IsGrounded :
    (fuel : ℕ) (g : InheritanceGraph) (names : List String) (st : States) {st' : States}
    → AreGrounded g st
    → visit_all fuel g names st ≡ ok st'
    → {name : String} → In name names
    → IsGrounded g name
unfolding visit_all
visit_all-IsGrounded fuel g [] st h e m = elim m [ ]
visit_all-IsGrounded fuel g (n ∷ names) st h e m =
    let (st1, first, rest) = >>=-eq-ok (visit fuel g [] n st) (visit_all fuel g names) e in
    let (own, h1) = visit-IsGrounded fuel g [] n st h first in
    elim (In-cons_cases m) [
      | inl q ↦ subst (IsGrounded g) (sym q) own
      | inr m' ↦ visit_all-IsGrounded fuel g names st1 h1 rest m'
    ]

-- Where `validateInheritanceCycles` returns no error, the chain of parents of every name of the
-- graph ends.
pub validate_inheritance_cycles-IsGrounded :
    (g : InheritanceGraph) (name : String) {st : States}
    → validate_inheritance_cycles g ≡ ok st
    → In name (keys g.children)
    → IsGrounded g name
unfolding validate_inheritance_cycles get
validate_inheritance_cycles-IsGrounded g name e m =
    visit_all-IsGrounded _ g (sort_strings (keys g.children)) [] (λ n q. cc) e
      (In-sort_strings (keys g.children) m)

-- `name` has `above` among its ancestors.
pub data Reaches (g : InheritanceGraph) : String → String → Type 0 where
  parent : {name above : String} → parent_of g name ≡ above → above ≢ "" → Reaches g name above
  step :
      {name middle above : String}
      → parent_of g name ≡ middle
      → middle ≢ ""
      → Reaches g middle above
      → Reaches g name above

pub Reaches-trans :
    {g : InheritanceGraph} {a b c : String} → Reaches g a b → Reaches g b c → Reaches g a c
Reaches-trans (parent p n) h = step p n h
Reaches-trans (step p n k) h = step p n (Reaches-trans k h)

-- The other names that `a` reaches, its parent reaches.
Reaches-step_inv :
    {g : InheritanceGraph} {a b : String}
    → Reaches g a b
    → (parent_of g a ≢ "") × ((parent_of g a ≡ b) ⊎ Reaches g (parent_of g a) b)
Reaches-step_inv (parent p n) = (λ q. n (sym p ∙ q), inl p)
Reaches-step_inv {g} {b} (step p n k) =
    (λ q. n (sym p ∙ q), inr (subst (λ m. Reaches g m b) (sym p) k))

-- A chain that ends holds no name that reaches itself.
pub IsGrounded-acyclic :
    {g : InheritanceGraph} {name : String} → IsGrounded g name → ¬ Reaches g name name
IsGrounded-acyclic (root p) r = absurd ((Reaches-step_inv r).0 p)
IsGrounded-acyclic {g} {name} (child {parent = m} p n h) r =
    IsGrounded-acyclic h (elim (Reaches-step_inv r).1 [
      | inl q ↦ parent (ap (parent_of g) (sym p ∙ q) ∙ p) n
      | inr k ↦ Reaches-trans (subst (λ x. Reaches g x name) p k) (parent p n)
    ])

-- A graph that `validateInheritanceCycles` accepts has no cycle: no name of the graph is among its
-- own ancestors.
pub validate_inheritance_cycles-acyclic :
    (g : InheritanceGraph) (name : String) {st : States}
    → validate_inheritance_cycles g ≡ ok st
    → In name (keys g.children)
    → ¬ Reaches g name name
validate_inheritance_cycles-acyclic g name e m r =
    IsGrounded-acyclic (validate_inheritance_cycles-IsGrounded g name e m) r
