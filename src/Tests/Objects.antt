-- ===== src/Tests/Objects.antt =====
-- Checks of objects at concrete inputs: a team, and a user that names it.
use mergeway_cli.Prelude.{
  Option, there, String, ◌≡◌, refl, ◌≢◌, Bool, true, false, none, some, List, [], ◌∷◌, In, here,
  ◌↔◌, All, Distinct, map, arith, eq_iff, member,
}
use mergeway_cli.Go.Int.{negsuc}
use mergeway_cli.Go.Map.{Map, get}
use mergeway_cli.Value.Defs.{null, str, Fields, end, field}
use mergeway_cli.Value.Scalar.{FloatFormat}
use mergeway_cli.Config.Model.{FieldDefinition, define, no_more, TypeDefinition, Config, yaml}
use mergeway_cli.Config.IsA.{assignable_types}
use mergeway_cli.Validation.Types.{Error, RawObject, entries}
use mergeway_cli.Validation.Field.{TextTests, value_at}
use mergeway_cli.Validation.Schema.{KeyTexts, with_id, validate_type_schema}
use mergeway_cli.Validation.Schema.Laws.{IsChecked, validate_type_schema-accepts}
use mergeway_cli.Validation.Index.{Assignable, matches_of, build_assignable_index, validate_schema}
use mergeway_cli.Validation.Index.Laws.{build_assignable_index-In}
use mergeway_cli.Validation.References.{
  is_empty, resolve_reference_types, collect_reference_values, validate_references,
}
use mergeway_cli.Validation.References.Laws.{
  IsResolved, validate_references-IsResolved, member-resolve_reference_types,
}
use mergeway_cli.Validation.Phases.{validate_with_ops, validate_with_ops-none_iff}

half_text : ◌≢◌ {A = String} "0.5" ""
half_text h = ground (arith, (eq_iff "0.5" "").1 h)

abbrev floats : FloatFormat
floats = record { format_float = λ w bits. "0.5"; format_float-ne = λ w bits. half_text }

abbrev texts : TextTests
texts = record {
  match_regexp = λ pattern s. some true;
  is_valid_email = λ s. true;
  is_valid_uri = λ s. true;
  to_lower = λ s. s;
}

abbrev prints : KeyTexts
prints = record { general_float = λ w bits. "0.5"; print = λ v. "<nil>"; marshal = λ v. none }

abbrev field_of : String → String → List String → Bool → FieldDefinition
field_of name type_name reference_types unique =
    define
      (record {
        name = name;
        type_name = type_name;
        reference_types = reference_types;
        required = true;
        repeated = false;
        format = "";
        enum = [];
        default = null;
        unique = unique;
        pattern = "";
        description = "";
        property_order = [];
        source = none;
      })
      no_more

abbrev entity : String → Map FieldDefinition → TypeDefinition
entity name fields = record {
  name = name;
  source = "";
  description = "";
  extends = "";
  ancestors = [];
  descendants = [];
  json_schema = "";
  identifier = record { field = "id"; generated = false; pattern = "" };
  include = [];
  fields = fields;
  field_order = [];
  inline_data = [];
  write = record { template = ""; format = yaml };
}

abbrev team_field : FieldDefinition
team_field = field_of "team" "Team" ("Team" ∷ []) false

abbrev team_type : TypeDefinition
team_type = entity "Team" (("id", field_of "id" "string" [] true) ∷ [])

abbrev user_type : TypeDefinition
user_type = entity "User" (("team", team_field) ∷ [])

abbrev config : Config
config = record {
  version = 1;
  types = ("User", user_type) ∷ ("Team", team_type) ∷ [];
  write = record { template = ""; format = yaml };
}

abbrev object : TypeDefinition → String → Fields → RawObject
object t id fields = record {
  type_def = t;
  file = "data.yaml";
  source = "data.yaml";
  index = negsuc 0;
  fields = some fields;
  id = id;
  inline = false;
}

abbrev core : String → RawObject
core id = object team_type id (field "id" (str "core") end)

abbrev ada : String → RawObject
ada id = object user_type id (field "id" (str "ada") (field "team" (str "core") end))

teams_checked : (validate_type_schema floats texts prints (core "" ∷ []) team_type).errors ≡ []
unfolding validate_type_schema mergeway_cli.Validation.Schema.validate_objects
    mergeway_cli.Validation.Schema.identify mergeway_cli.Validation.Types.identifier_for_object
    mergeway_cli.Value.Scalar.get_string get mergeway_cli.Validation.Schema.check_fields
    mergeway_cli.Validation.Field.validate_field mergeway_cli.Validation.Field.validate_field_value
    mergeway_cli.Validation.Field.validate_plain
    mergeway_cli.Validation.Field.enforce_string_constraints
    mergeway_cli.Validation.Schema.normalized_unique_key
teams_checked = refl

validate_type_schema-accepts_example :
    (map
        (λ o. with_id o "")
        (validate_type_schema floats texts prints (core "" ∷ []) team_type).objects
      ≡ map (λ o. with_id o "") (core "" ∷ []))
    × All
        (λ o.
          IsChecked floats texts prints team_type o
          × (get (validate_type_schema floats texts prints (core "" ∷ []) team_type).indexed o.id
              ≡ some o))
        (validate_type_schema floats texts prints (core "" ∷ []) team_type).objects
    × Distinct (
        map (λ o. o.id) (validate_type_schema floats texts prints (core "" ∷ []) team_type).objects)
validate_type_schema-accepts_example =
    validate_type_schema-accepts floats texts prints (core "" ∷ []) team_type teams_checked

abbrev index : Assignable
index = ("Team", ("core", core "core" ∷ []) ∷ []) ∷ ("User", ("ada", ada "ada" ∷ []) ∷ []) ∷ []

abbrev loaded : Map (List RawObject)
loaded = ("User", ada "ada" ∷ []) ∷ ("Team", core "core" ∷ []) ∷ []

references_checked : validate_references floats loaded index config ≡ []
unfolding validate_references mergeway_cli.Validation.References.check_reference_types
    mergeway_cli.Go.Order.sort_strings mergeway_cli.Go.Order.text_lt get
    mergeway_cli.Validation.References.check_reference_objects
    mergeway_cli.Validation.References.check_reference_fields
    mergeway_cli.Validation.References.check_targets collect_reference_values
    mergeway_cli.Value.Scalar.as_string mergeway_cli.Value.Maps.find resolve_reference_types
    assignable_types mergeway_cli.Go.Map.has
references_checked = refl

user_known : get config.types "User" ≡ some user_type
unfolding get
user_known = refl

users_loaded : get loaded "User" ≡ some (ada "ada" ∷ [])
unfolding get
users_loaded = refl

reference_read :
    In "core" (collect_reference_values floats (value_at (entries (ada "ada").fields) "team") false)
unfolding collect_reference_values mergeway_cli.Value.Scalar.as_string mergeway_cli.Value.Maps.find
reference_read = here

validate_references-IsResolved_example : IsResolved index config team_field "core"
validate_references-IsResolved_example =
    validate_references-IsResolved floats loaded index config "User" "team" references_checked
      user_known users_loaded here refl here refl reference_read

member-resolve_reference_types_example :
    (member (resolve_reference_types index config ("Team" ∷ []) "core") "Team" ≡ true) ↔ (
      (member ("Team" ∷ []) "Team" ≡ true)
      × (is_empty (assignable_types config "Team") ≡ false)
      × (is_empty (matches_of index "Team" "core") ≡ false))
member-resolve_reference_types_example =
    member-resolve_reference_types index config ("Team" ∷ []) "core" "Team"

abbrev collect : Config → Map (List RawObject) × List Error
collect c = ((("User", ada "" ∷ []) ∷ ("Team", core "" ∷ []) ∷ []), [])

validate_with_ops-none_iff_example :
    (validate_with_ops floats texts prints collect config [] true ≡ []) ↔ (
      ((collect config).1 ≡ [])
      × ((validate_schema floats texts prints (collect config).0 config).errors ≡ [])
      × (validate_references floats
            (validate_schema floats texts prints (collect config).0 config).all
            (validate_schema floats texts prints (collect config).0 config).by_assignable
            config
          ≡ []))
validate_with_ops-none_iff_example =
    validate_with_ops-none_iff floats texts prints collect config true

abbrev derived : RawObject
derived =
    object (record team_type { ancestors = "Group" ∷ [] }) "core" (field "id" (str "core") end)

abbrev indexed : Map (Map RawObject)
indexed = ("Team", ("core", derived) ∷ []) ∷ []

team_indexed : get indexed "Team" ≡ some (("core", derived) ∷ [])
unfolding get
team_indexed = refl

derived_indexed : ◌≡◌ {A = Option RawObject} (get (("core", derived) ∷ []) "core") (some derived)
unfolding get
derived_indexed = refl

build_assignable_index-In_example :
    In derived (matches_of (build_assignable_index indexed config).0 "Group" "core")
build_assignable_index-In_example =
    build_assignable_index-In indexed config "Team" "Group" "core" derived (there here) team_indexed
      derived_indexed (there here)
