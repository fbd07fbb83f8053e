-- ===== src/Tests/Inheritance.antt =====
-- A configuration with a type `Item` that extends `Base`, its graph, and one with a cycle.
use mergeway_cli.Prelude.{
  String, ◌≡◌, refl, ◌≢◌, ◌⊎◌, inl, inr, true, false, none, some, [], ◌∷◌, ok, err, arith, eq_iff,
  sym, ap, ◌∙◌, Distinct, text-cases, here, member, ◌==◌, ◌↔◌, ◌&&◌,
}
use mergeway_cli.Go.Map.{Map, get, put, has, keys}
use mergeway_cli.Go.Order.{sort_strings, text_lt}
use mergeway_cli.Config.Model.{TypeDefinition, Config, yaml}
use mergeway_cli.Config.Raw.{RawType, no_entry}
use mergeway_cli.Config.IsA.{is_a, assignable_types}
use mergeway_cli.Config.IsA.Laws.{
  Inherits, extends, further, IsAcyclic, is_a_iff, member-assignable_types,
}
use mergeway_cli.Config.Graph.{
  children_of, build_inheritance_graph, build_inheritance_graph-IsClosed,
}
use mergeway_cli.Config.Graph.Laws.{extended, IsKnownParent, build_inheritance_graph-parents}
use mergeway_cli.Config.Cycles.{
  parent_of, InheritanceGraph, States, done, cyclic_inheritance, out_of_fuel, visit, visit_all,
  validate_inheritance_cycles, from_first,
}
use mergeway_cli.Config.Cycles.Accepts.{Reaches, validate_inheritance_cycles-acyclic}
use mergeway_cli.Config.Cycles.Rejects.{validate_inheritance_cycles-cycle}
use mergeway_cli.Config.Cycles.Total.{validate_inheritance_cycles-total}

abbrev type_of : String → String → TypeDefinition
type_of name parent = record {
  name = name;
  source = "";
  description = "";
  extends = parent;
  ancestors = [];
  descendants = [];
  json_schema = "";
  identifier = record { field = "id"; generated = false; pattern = "" };
  include = [];
  fields = [];
  field_order = [];
  inline_data = [];
  write = record { template = ""; format = yaml };
}

abbrev two_types : Config
two_types = record {
  version = 1;
  types = ("Base", type_of "Base" "") ∷ ("Item", type_of "Item" "Base") ∷ [];
  write = record { template = ""; format = yaml };
}

same_type : {t u : TypeDefinition} → some t ≡ some u → t ≡ u
same_type h = cc

none-ne-some : {t : TypeDefinition} → none ≡ some t → ⊥
none-ne-some h = cc

parent_of_type :
    {t u : TypeDefinition} {parent : String}
    → some t ≡ some u
    → u.extends ≡ parent
    → parent ≡ t.extends
parent_of_type h e = sym (ap (λ t. t.extends) (same_type h) ∙ e)

two_types-extends :
    (name parent : String) (t : TypeDefinition)
    → get two_types.types name ≡ some t
    → t.extends ≡ parent
    → parent ≢ ""
    → (name ≡ "Item") × (parent ≡ "Base")
unfolding get
two_types-extends name parent t g e n = elim (text-cases "Base" name) [
  | inl q ↦ absurd (n (parent_of_type (ap (get two_types.types) q ∙ g) e))
  | inr q ↦ elim (text-cases "Item" name) [
    | inl r ↦ (sym r, parent_of_type (ap (get two_types.types) r ∙ g) e)
    | inr r ↦ absurd (none-ne-some (rw (q, r) at g))
  ]
]

base-ne-item : ◌≢◌ {A = String} "Base" "Item"
base-ne-item h = ground (arith, (eq_iff "Base" "Item").1 h)

two_types-Inherits : {a b : String} → Inherits two_types.types a b → (a ≡ "Item") × (b ≡ "Base")
two_types-Inherits (extends {child = a} {parent = b} t g e n) = two_types-extends a b t g e n
two_types-Inherits (further {child = a} {middle = m} t g e n h) =
    absurd (base-ne-item (sym (two_types-extends a m t g e n).1 ∙ (two_types-Inherits h).0))

two_types-IsAcyclic : IsAcyclic two_types.types
two_types-IsAcyclic name h = base-ne-item (sym (two_types-Inherits h).1 ∙ (two_types-Inherits h).0)

ne_text : (s t : String) → (s == t) ≡ false → s ≢ t
ne_text s t h p = ground (arith, eq_iff s t)

item_known : has two_types.types "Item" ≡ true
unfolding has
item_known = refl

base_known : has two_types.types "Base" ≡ true
unfolding has
base_known = refl

is_a_iff_example :
    (is_a two_types "Item" "Base" ≡ true)
    ↔ ((◌≡◌ {A = String} "Item" "Base") ⊎ Inherits two_types.types "Item" "Base")
is_a_iff_example =
    is_a_iff two_types "Item" "Base" two_types-IsAcyclic (ne_text "Item" "" refl)
      (ne_text "Base" "" refl) item_known base_known

member-assignable_types_example :
    member (assignable_types two_types "Base") "Item"
    ≡ (has two_types.types "Item" && is_a two_types "Item" "Base")
member-assignable_types_example =
    member-assignable_types two_types "Base" "Item" (ne_text "Base" "" refl) base_known

abbrev raw_type : String → String → RawType
raw_type name parent = record {
  name = name;
  spec = record {
    identifier = record { field = "id"; generated = false; pattern = ""; set = true };
    extends = parent;
    include = [];
    fields = no_entry;
    json_schema = "";
    inline_data = [];
    description = "";
  };
  source = "mergeway.yaml";
}

abbrev raw_types : Map RawType
raw_types = ("Base", raw_type "Base" "") ∷ ("Item", raw_type "Item" " Base ") ∷ []

abbrev graph : InheritanceGraph
graph = record {
  parent = ("Item", "Base") ∷ [];
  children = ("Item", []) ∷ ("Base", "Item" ∷ []) ∷ [];
}

graph_of_types : build_inheritance_graph raw_types ≡ ok graph
unfolding build_inheritance_graph mergeway_cli.Config.Graph.add_parents
    mergeway_cli.Go.Text.trim_space mergeway_cli.Go.Text.trim_right mergeway_cli.Go.Text.trim_left
    mergeway_cli.Go.Text.is_space mergeway_cli.Config.Names.is_valid_type_name
    mergeway_cli.Config.Names.is_valid_identifier mergeway_cli.Go.Text.all_chars has
    mergeway_cli.Config.Graph.add_parent mergeway_cli.Config.Graph.sort_children put
    mergeway_cli.Config.Graph.no_children sort_strings get
graph_of_types = refl

two_raw_types : Distinct (keys raw_types)
unfolding member
two_raw_types = (refl, (refl, tt))

item_type_found : get raw_types "Item" ≡ some (raw_type "Item" " Base ")
unfolding get
item_type_found = refl

build_inheritance_graph-parents_example :
    (parent_of graph "Item" ≡ extended (raw_type "Item" " Base "))
    × IsKnownParent raw_types (extended (raw_type "Item" " Base "))
    × (member (children_of graph.children "Base") "Item"
        ≡ (extended (raw_type "Item" " Base ") == "Base"))
build_inheritance_graph-parents_example =
    build_inheritance_graph-parents raw_types "Item" "Base" two_raw_types (ne_text "Base" "" refl)
      item_type_found graph_of_types

validate_inheritance_cycles-total_example : validate_inheritance_cycles graph ≢ err out_of_fuel
validate_inheritance_cycles-total_example =
    validate_inheritance_cycles-total graph
      (build_inheritance_graph-IsClosed raw_types graph_of_types)

abbrev finished_states : States
finished_states = ("Base", done) ∷ ("Item", done) ∷ []

graph_accepted : validate_inheritance_cycles graph ≡ ok finished_states
unfolding validate_inheritance_cycles visit_all sort_strings text_lt visit get put
graph_accepted = refl

validate_inheritance_cycles-acyclic_example : ¬ Reaches graph "Item" "Item"
validate_inheritance_cycles-acyclic_example =
    validate_inheritance_cycles-acyclic graph "Item" graph_accepted here

abbrev loop : InheritanceGraph
loop = record {
  parent = ("A", "B") ∷ ("B", "A") ∷ [];
  children = ("A", "B" ∷ []) ∷ ("B", "A" ∷ []) ∷ [];
}

loop_rejected : validate_inheritance_cycles loop ≡ err (cyclic_inheritance ("A" ∷ "B" ∷ "A" ∷ []))
unfolding validate_inheritance_cycles visit_all sort_strings text_lt visit get put from_first
loop_rejected = refl

validate_inheritance_cycles-cycle_example : (n : String) × Reaches loop n n
validate_inheritance_cycles-cycle_example =
    validate_inheritance_cycles-cycle loop ("A" ∷ "B" ∷ "A" ∷ []) loop_rejected
