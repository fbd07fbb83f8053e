-- ===== src/Config/Graph.antt =====
-- `buildInheritanceGraph` of internal/config/normalize.go.
pub mod Laws
use mergeway_cli.Prelude.{
  String, ◌≡◌, refl, ◌≢◌, true, none, some, List, [], ◌∷◌, ◌++◌, ◌==◌, not, if◌then◌else◌, Result,
  ok, err, ◌>>=◌, >>=-eq-ok, ok_inj, arith, Bool-cases, inl, inr, subst, ◌∙◌, member, eq_iff, ◌||◌,
  ap,
}
use mergeway_cli.Go.Map.{Map, get, put, has, keys, get-put}
use mergeway_cli.Go.Order.{sort_strings}
use mergeway_cli.Go.Text.{trim_space}
use mergeway_cli.Config.Raw.{RawType}
use mergeway_cli.Config.Names.{is_valid_type_name}
use mergeway_cli.Config.Cycles.{InheritanceGraph, parent_of}
use mergeway_cli.Config.Cycles.Steps.{IsClosed}

pub data GraphError : Type 0 where
  invalid_parent : String → String → GraphError
  unknown_parent : String → String → GraphError

-- `graph.children[name] = nil` for each type
unfoldable pub no_children : Map RawType → Map (List String)
no_children [] = []
no_children ((name, t) ∷ types) = put (no_children types) name []

-- `graph.children[parent] = append(graph.children[parent], name)`
abbrev pub children_of : Map (List String) → String → List String
children_of children name = elim (get children name) [ none ↦ [] | some names ↦ names ]

unfoldable pub add_parent : InheritanceGraph → String → String → InheritanceGraph
add_parent g name parent = record {
  parent = put g.parent name parent;
  children = put g.children parent (children_of g.children parent ++ name ∷ []);
}

-- The loop over the types, in the order of the map's iteration.
unfoldable pub add_parents :
    Map RawType → InheritanceGraph → Map RawType → Result GraphError InheritanceGraph
add_parents all g [] = ok g
add_parents all g ((name, t) ∷ rest) =
    let parent = trim_space t.spec.extends in
    let skip = add_parents all g rest in
    let taken = add_parents all (add_parent g name parent) rest in
    if parent == ""
    then skip
    else if not (is_valid_type_name parent)
    then err (invalid_parent name parent)
    else if not (has all parent)
    then err (unknown_parent name parent)
    else taken

unfoldable pub sort_children : Map (List String) → Map (List String)
sort_children [] = []
sort_children ((name, names) ∷ children) = (name, sort_strings names) ∷ sort_children children

-- `buildInheritanceGraph`
unfoldable pub build_inheritance_graph : Map RawType → Result GraphError InheritanceGraph
build_inheritance_graph types =
    add_parents types (record { parent = []; children = no_children types }) types >>= λ g.
    ok (record g { children = sort_children g.children })

keys-put :
    {V : Type 0} (m : Map V) (k : String) (v : V) (j : String)
    → member (keys (put m k v)) j ≡ (k == j || member (keys m) j)
unfolding put member
keys-put [] k v j = refl
keys-put ((i, w) ∷ m) k v j = ground (arith, keys-put m k v j, eq_iff i k, eq_iff i j, eq_iff k j)

keys-no_children :
    (types : Map RawType) (j : String)
    → has types j ≡ true
    → member (keys (no_children types)) j ≡ true
unfolding no_children has
keys-no_children [] j h = cc
keys-no_children ((name, t) ∷ types) j h =
    ground (arith, keys-put (no_children types) name [] j, keys-no_children types j)

keys-sort_children : (children : Map (List String)) → keys (sort_children children) ≡ keys children
unfolding sort_children
keys-sort_children [] = refl
keys-sort_children ((name, names) ∷ children) = ap (λ ks. name ∷ ks) (keys-sort_children children)

-- What the loop keeps: each parent that is set is a known type, and each known type is a key.
record IsSound (all : Map RawType) (g : InheritanceGraph) : Type 0 where
  parents : (name : String) → parent_of g name ≢ "" → has all (parent_of g name) ≡ true
  children : (name : String) → has all name ≡ true → member (keys g.children) name ≡ true

parent_of-add_parent :
    (g : InheritanceGraph) (name parent n : String)
    → parent_of (add_parent g name parent) n ≡ (if name == n then parent else parent_of g n)
unfolding add_parent
parent_of-add_parent g name parent n = ground (arith, get-put g.parent name n parent)

add_parent-IsSound :
    (all : Map RawType) (g : InheritanceGraph) (name parent : String)
    → IsSound all g
    → has all parent ≡ true
    → IsSound all (add_parent g name parent)
add_parent-IsSound all g name parent s known = record {
  parents = λ n ne. elim (Bool-cases (name == n)) [
    | inl e ↦ ground (arith, parent_of-add_parent g name parent n, e, known)
    | inr e ↦
        let same : parent_of (add_parent g name parent) n ≡ parent_of g n =
          ground (arith, parent_of-add_parent g name parent n, e) in
        rw same (s.parents n (λ q. ne (same ∙ q)))
  ];
  children = λ n k.
      unfold add_parent in rw (keys-put g.children parent _ n, s.children n k) (ground arith);
}

add_parents-IsSound :
    (all : Map RawType) (g : InheritanceGraph) (rest : Map RawType) {g' : InheritanceGraph}
    → IsSound all g
    → add_parents all g rest ≡ ok g'
    → IsSound all g'
unfolding add_parents
add_parents-IsSound all g [] s h = subst (IsSound all) (ok_inj h) s
add_parents-IsSound all g ((name, t) ∷ rest) s h =
    elim (Bool-cases (trim_space t.spec.extends == "")) [
      | inl e ↦ add_parents-IsSound all g rest s (ground (arith, e))
      | inr e ↦
          add_parents-IsSound all (add_parent g name (trim_space t.spec.extends)) rest
            (add_parent-IsSound all g name (trim_space t.spec.extends) s (ground (arith, e)))
            (ground (arith, e))
    ]

-- In the graph that `buildInheritanceGraph` returns, each parent is a key of the children, as
-- `validateInheritanceCycles` needs it.
pub build_inheritance_graph-IsClosed :
    (types : Map RawType) {g : InheritanceGraph} → build_inheritance_graph types ≡ ok g → IsClosed g
unfolding build_inheritance_graph get
build_inheritance_graph-IsClosed types {g} h =
    let (g1, e, f) = >>=-eq-ok (add_parents types _ types) _ h in
    let s : IsSound types g1 =
      add_parents-IsSound types _ types
        (record {
          parents = λ n ne. absurd (ne refl);
          children = λ n k. keys-no_children types n k;
        })
        e in
    subst IsClosed (ok_inj f)
      (λ n ne. rw (keys-sort_children g1.children) (s.children (parent_of g1 n) (s.parents n ne)))
