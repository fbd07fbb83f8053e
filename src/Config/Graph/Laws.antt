-- ===== src/Config/Graph/Laws.antt =====
-- What the inheritance graph says of the types.
use mergeway_cli.Prelude.{
  String, ◌≡◌, refl, ◌≢◌, ◌⊎◌, true, false, some, List, [], ◌∷◌, ◌++◌, ◌==◌, ◌&&◌, if◌then◌else◌,
  ok, >>=-eq-ok, ok_inj, arith, Bool-cases, inl, inr, subst, sym, ◌∙◌, member, eq_iff, eq_refl,
  ◌||◌, ap, Distinct, if_true, if_false, ne→not-eq,
}
use mergeway_cli.Go.Map.{Map, get, put, has, keys, get-put}
use mergeway_cli.Go.Order.{sort_strings, member-sort_strings}
use mergeway_cli.Go.Text.{trim_space}
use mergeway_cli.Config.Raw.{RawType}
use mergeway_cli.Config.Names.{is_valid_type_name}
use mergeway_cli.Config.Cycles.{InheritanceGraph, parent_of}
use mergeway_cli.Config.Graph.{
  no_children, children_of, add_parent, add_parents, sort_children, build_inheritance_graph,
  parent_of-add_parent,
}

-- The name that the type gives for its parent, which is empty where it has none.
abbrev pub extended : RawType → String
extended t = trim_space t.spec.extends

-- A parent that is given is a valid name of a type that is there.
abbrev pub IsKnownParent : Map RawType → String → Type 0
IsKnownParent types p = (p ≡ "") ⊎ ((is_valid_type_name p ≡ true) × (has types p ≡ true))

some_inj : {a b : RawType} → some a ≡ some b → a ≡ b
some_inj h = cc

-- The name is among the children of exactly its parent.
abbrev Mirrors : InheritanceGraph → String → String → Type 0
Mirrors g p n = member (children_of g.children p) n ≡ (parent_of g n == p)

member-snoc : (xs : List String) (a n : String) → member (xs ++ a ∷ []) n ≡ (member xs n || a == n)
unfolding member
member-snoc [] a n = ground (arith, eq_iff a n)
member-snoc (x ∷ xs) a n = ground (arith, member-snoc xs a n)

children_of-put :
    (m : Map (List String)) (k j : String) (v : List String)
    → children_of (put m k v) j ≡ (if k == j then v else children_of m j)
children_of-put m k j v = elim (Bool-cases (k == j)) [
  | inl e ↦ rw (children_of, get-put m k j v, e) refl
  | inr e ↦ rw (children_of, get-put m k j v, e) refl
]

member-children_of :
    (g : InheritanceGraph) (name parent p n : String)
    → member (children_of (add_parent g name parent).children p) n
      ≡ (member (children_of g.children p) n || (parent == p && name == n))
unfolding add_parent
member-children_of g name parent p n = elim (Bool-cases (parent == p)) [
  | inl e ↦
      ap (λ l. member l n)
        (children_of-put g.children parent p (children_of g.children parent ++ name ∷ [])
          ∙ (if_true (parent == p) _ _ e
              ∙ ap (λ q. children_of g.children q ++ name ∷ []) ((eq_iff parent p).0 e)))
      ∙ (member-snoc (children_of g.children p) name n ∙ rw e refl)
  | inr e ↦
      ap (λ l. member l n)
        (children_of-put g.children parent p (children_of g.children parent ++ name ∷ [])
          ∙ if_false (parent == p) _ _ e)
      ∙ rw e (ground arith)
]

-- A name that has no parent yet gets one.
add_parent-Mirrors :
    (g : InheritanceGraph) (name parent p n : String)
    → (p == "") ≡ false
    → parent_of g name ≡ ""
    → Mirrors g p n
    → Mirrors (add_parent g name parent) p n
add_parent-Mirrors g name parent p n ne fresh m =
    member-children_of g name parent p n
    ∙ (ap (λ b. b || (parent == p && name == n)) m
        ∙ (elim (Bool-cases (name == n)) [
          | inl e ↦
              ap (λ q. q == p || (parent == p && name == n))
                (ap (parent_of g) (sym ((eq_iff name n).0 e)) ∙ fresh)
              ∙ (rw e (ground (arith, ne, eq_iff "" p, eq_iff p ""))
                  ∙ ap (λ q. q == p) (sym (if_true (name == n) _ _ e)))
          | inr e ↦ rw e (ground arith)
        ]
            ∙ ap (λ q. q == p) (sym (parent_of-add_parent g name parent n))))

children_of-no_children :
    (types : Map RawType) (p : String) → children_of (no_children types) p ≡ []
unfolding no_children get
children_of-no_children [] p = refl
children_of-no_children ((name, t) ∷ types) p =
    children_of-put (no_children types) name p [] ∙ elim (Bool-cases (name == p)) [
      | inl e ↦ if_true (name == p) _ _ e
      | inr e ↦ if_false (name == p) _ _ e ∙ children_of-no_children types p
    ]

children_of-sort_children :
    (children : Map (List String)) (p : String)
    → children_of (sort_children children) p ≡ sort_strings (children_of children p)
unfolding sort_children get sort_strings
children_of-sort_children [] p = refl
children_of-sort_children ((name, names) ∷ children) p = elim (Bool-cases (name == p)) [
  | inl e ↦ rw (children_of, e) refl
  | inr e ↦ rw (children_of, e) (children_of-sort_children children p)
]

-- A type of the loop: it has no parent and is skipped, or its parent is known and added.
add_parents_round :
    (all : Map RawType) (g : InheritanceGraph) (name : String) (t : RawType) (rest : Map RawType)
    {g' : InheritanceGraph}
    → add_parents all g ((name, t) ∷ rest) ≡ ok g'
    → ((extended t ≡ "") × (add_parents all g rest ≡ ok g'))
      ⊎ ((is_valid_type_name (extended t) ≡ true)
          × (has all (extended t) ≡ true)
          × (add_parents all (add_parent g name (extended t)) rest ≡ ok g'))
unfolding add_parents
add_parents_round all g name t rest h = elim (Bool-cases (extended t == "")) [
  | inl e ↦ inl ((eq_iff (extended t) "").0 e, ground (arith, e, h))
  | inr e ↦ inr (ground (arith, e, h), ground (arith, e, h), ground (arith, e, h))
]

added_parent :
    (g : InheritanceGraph) (name parent n : String)
    → (name == n) ≡ false
    → parent_of (add_parent g name parent) n ≡ parent_of g n
added_parent g name parent n e = parent_of-add_parent g name parent n ∙ if_false (name == n) _ _ e

add_parents_others :
    (all : Map RawType) (g : InheritanceGraph) (rest : Map RawType) (n : String)
    {g' : InheritanceGraph}
    → member (keys rest) n ≡ false
    → add_parents all g rest ≡ ok g'
    → parent_of g' n ≡ parent_of g n
unfolding add_parents member
add_parents_others all g [] n m h = ap (λ x. parent_of x n) (sym (ok_inj h))
add_parents_others all g ((name, t) ∷ rest) n m h = elim (add_parents_round all g name t rest h) [
  | inl p ↦ add_parents_others all g rest n (ground (arith, m)) p.1
  | inr p ↦
      add_parents_others all (add_parent g name (extended t)) rest n (ground (arith, m)) p.2
      ∙ added_parent g name (extended t) n (ground (arith, m))
]

-- No type of the rest has a parent yet.
abbrev Fresh : InheritanceGraph → Map RawType → Type 0
Fresh g rest = (k : String) → member (keys rest) k ≡ true → parent_of g k ≡ ""

Fresh-add_parent :
    (g : InheritanceGraph) (name parent : String) (t : RawType) (rest : Map RawType)
    → member (keys rest) name ≡ false
    → Fresh g ((name, t) ∷ rest)
    → Fresh (add_parent g name parent) rest
unfolding member
Fresh-add_parent g name parent t rest d f k m =
    added_parent g name parent k (ground (arith, d, m, eq_iff name k)) ∙ f k (ground (arith, m))

add_parents-Mirrors :
    (all : Map RawType) (g : InheritanceGraph) (rest : Map RawType) (p n : String)
    {g' : InheritanceGraph}
    → (p == "") ≡ false
    → Distinct (keys rest)
    → Fresh g rest
    → Mirrors g p n
    → add_parents all g rest ≡ ok g'
    → Mirrors g' p n
unfolding add_parents member
add_parents-Mirrors all g [] p n ne d f m h = subst (λ x. Mirrors x p n) (ok_inj h) m
add_parents-Mirrors all g ((name, t) ∷ rest) p n ne d f m h =
    elim (add_parents_round all g name t rest h) [
      | inl q ↦ add_parents-Mirrors all g rest p n ne d.1 (λ k i. f k (ground (arith, i))) m q.1
      | inr q ↦
          add_parents-Mirrors all (add_parent g name (extended t)) rest p n ne d.1
            (Fresh-add_parent g name (extended t) t rest d.0 f)
            (add_parent-Mirrors g name (extended t) p n ne (f name (ground (arith, eq_refl name)))
              m)
            q.2
    ]

add_parents-parent :
    (all : Map RawType) (g : InheritanceGraph) (rest : Map RawType) (n : String) {t : RawType}
    {g' : InheritanceGraph}
    → Distinct (keys rest)
    → Fresh g rest
    → get rest n ≡ some t
    → add_parents all g rest ≡ ok g'
    → (parent_of g' n ≡ extended t) × IsKnownParent all (extended t)
unfolding add_parents get member
add_parents-parent all g [] n d f i h = absurd (cc)
add_parents-parent all g ((name, u) ∷ rest) n {t} {g'} d f i h = elim (Bool-cases (name == n)) [
  | inl e ↦
      let same = some_inj (sym (if_true (name == n) _ _ e) ∙ i) in
      let absent = subst (λ k. member (keys rest) k ≡ false) ((eq_iff name n).0 e) d.0 in
      subst (λ v. (parent_of g' n ≡ extended v) × IsKnownParent all (extended v)) same
        (elim (add_parents_round all g name u rest h) [
          | inl p ↦ (
            add_parents_others all g rest n absent p.1 ∙ f n (ground (arith, e)) ∙ sym p.0,
            inl p.0,
          )
          | inr p ↦ (
            add_parents_others all (add_parent g name (extended u)) rest n absent p.2
                ∙ (parent_of-add_parent g name (extended u) n ∙ if_true (name == n) _ _ e),
            inr (p.0, p.1),
          )
        ])
  | inr e ↦
      let later = sym (if_false (name == n) _ _ e) ∙ i in
      elim (add_parents_round all g name u rest h) [
        | inl p ↦ add_parents-parent all g rest n d.1 (λ k m. f k (ground (arith, m))) later p.1
        | inr p ↦
            add_parents-parent all (add_parent g name (extended u)) rest n d.1
              (Fresh-add_parent g name (extended u) u rest d.0 f) later p.2
      ]
]

-- For types with distinct names: in the graph that `buildInheritanceGraph` returns, a type has as its
-- parent the name that it gives, which is empty or a valid name of one of the types, and the type is
-- among the children of a name exactly where that name is its parent.
pub build_inheritance_graph-parents :
    (types : Map RawType) (n p : String) {t : RawType} {g : InheritanceGraph}
    → Distinct (keys types)
    → p ≢ ""
    → get types n ≡ some t
    → build_inheritance_graph types ≡ ok g
    → (parent_of g n ≡ extended t)
      × IsKnownParent types (extended t)
      × (member (children_of g.children p) n ≡ (extended t == p))
unfolding build_inheritance_graph get member
build_inheritance_graph-parents types n p {t} d ne i h =
    let (g1, e, f) = >>=-eq-ok (add_parents types _ types) _ h in
    let no = ne→not-eq p "" ne in
    let (parent, known) = add_parents-parent types _ types n d (λ k m. refl) i e in
    let mirrored =
      add_parents-Mirrors types _ types p n no d (λ k m. refl)
        (ap (λ l. member l n) (children_of-no_children types p)
          ∙ ground (arith, no, eq_iff "" p, eq_iff p ""))
        e in
    subst
      (λ x.
        (parent_of x n ≡ extended t)
        × IsKnownParent types (extended t)
        × (member (children_of x.children p) n ≡ (extended t == p)))
      (ok_inj f)
      (
        parent,
        known,
        ap (λ l. member l n) (children_of-sort_children g1.children p)
            ∙ (member-sort_strings (children_of g1.children p) n
                ∙ (mirrored ∙ ap (λ q. q == p) parent)),
      )
