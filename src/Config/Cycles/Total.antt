-- ===== src/Config/Cycles/Total.antt =====
-- The search of `validateInheritanceCycles` ends by itself.
use mergeway_cli.Prelude.{
  ℕ, zero, suc, ◌+◌, ◌<◌, String, ◌≡◌, ◌≢◌, true, List, [], ◌∷◌, ◌++◌, ◌==◌, err, Result-cases,
  arith, eq_iff, eq_refl, Bool-cases, inl, inr, sym, ◌∙◌, member, Distinct, Distinct-length-le,
  length, not-eq→ne,
}
use mergeway_cli.Go.Map.{put, keys, length-keys}
use mergeway_cli.Go.Order.{sort_strings, member-sort_strings}
use mergeway_cli.Config.Cycles.{
  InheritanceGraph, pending, visiting, out_of_fuel, States, state_of, parent_of, visit, visit_all,
  validate_inheritance_cycles,
}
use mergeway_cli.Config.Cycles.Steps.{
  state-cases, visit_root, visit_child, visit_visiting, visit_done, state_of-put, IsClosed,
}

-- The names that are being visited are distinct and names of the graph.
record AreOpen (g : InheritanceGraph) (st : States) (opened : List String) : Type 0 where
  distinct : Distinct opened
  busy : (s : String) → member opened s ≡ true → state_of st s ≡ visiting
  known : (s : String) → member opened s ≡ true → member (keys g.children) s ≡ true

AreOpen-cons :
    (g : InheritanceGraph) (st : States) (opened : List String) (name : String)
    → AreOpen g st opened
    → state_of st name ≡ pending
    → member (keys g.children) name ≡ true
    → AreOpen g (put st name visiting) (name ∷ opened)
unfolding member
AreOpen-cons g st opened name o fresh known = record {
  distinct = (
    elim (Bool-cases (member opened name)) [
      | inl m ↦ absurd (ground (arith, fresh, o.busy name m))
      | inr n ↦ n
    ],
    o.distinct,
  );
  busy = λ s m. ground (arith, state_of-put st name s visiting, o.busy s);
  known = λ s m. ground (arith, eq_iff name s, o.known s);
}

visit-total :
    (fuel : ℕ) (g : InheritanceGraph) (stack : List String) (name : String) (st : States)
    (opened : List String)
    → IsClosed g
    → AreOpen g st opened
    → member (keys g.children) name ≡ true
    → length g.children < fuel + length opened
    → visit fuel g stack name st ≢ err out_of_fuel
visit-total zero g stack name st opened closed o known enough e = absurd (
    omega (
      arith,
      Distinct-length-le opened (keys g.children) o.distinct o.known,
      length-keys g.children,
    ))
visit-total (suc fuel) g stack name st opened closed o known enough e =
    elim (state-cases (state_of st name)) [
      | inl p ↦ elim (Bool-cases (parent_of g name == "")) [
        | inl r ↦ cc (visit_root fuel g stack name st p r)
        | inr r ↦
            let up =
              visit-total fuel g (stack ++ name ∷ []) (parent_of g name) (put st name visiting)
                (name ∷ opened) closed (AreOpen-cons g st opened name o p known)
                (closed name (not-eq→ne (parent_of g name) "" r)) (omega arith) in
            elim (Result-cases
              (visit fuel g (stack ++ name ∷ []) (parent_of g name) (put st name visiting))) [
                | inl (st', q) ↦ ground (arith, visit_child fuel g stack name st p r, q, e)
                | inr (c, q) ↦ up (ground (arith, visit_child fuel g stack name st p r, q, e))
              ]
      ]
      | inr (inl v) ↦ cc (visit_visiting fuel g stack name st v)
      | inr (inr d) ↦ cc (visit_done fuel g stack name st d)
    ]

visit_all-total :
    (fuel : ℕ) (g : InheritanceGraph) (names : List String) (st : States)
    → IsClosed g
    → length g.children < fuel
    → ((s : String) → member names s ≡ true → member (keys g.children) s ≡ true)
    → visit_all fuel g names st ≢ err out_of_fuel
unfolding visit_all member
visit_all-total fuel g [] st closed enough known e = cc
visit_all-total fuel g (n ∷ names) st closed enough known e =
    elim (Result-cases (visit fuel g [] n st)) [
      | inl (st', q) ↦
          visit_all-total fuel g names st' closed enough (λ s m. known s (ground (arith, m)))
            (ground (arith, q, e))
      | inr (c, q) ↦
          visit-total fuel g [] n st [] closed
            (record { distinct = tt; busy = λ s m. cc; known = λ s m. cc })
            (known n (ground (arith, eq_refl n))) (omega arith) (ground (arith, q, e))
    ]

-- On a graph whose parents are names of the graph the search ends by a success or by an error of
-- the program: the rounds that the model allows are enough.
pub validate_inheritance_cycles-total :
    (g : InheritanceGraph) → IsClosed g → validate_inheritance_cycles g ≢ err out_of_fuel
unfolding validate_inheritance_cycles
validate_inheritance_cycles-total g closed =
    visit_all-total _ g (sort_strings (keys g.children)) [] closed (omega arith)
      (λ s m. sym (member-sort_strings (keys g.children) s) ∙ m)
