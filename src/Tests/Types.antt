-- ===== src/Tests/Types.antt =====
-- A type that takes a field and the identifier from its parent, and refers to it.
use mergeway_cli.Prelude.{
  String, ◌≡◌, refl, Bool, true, false, Option, none, some, List, [], ◌∷◌, ◌++◌, Result, ok, err,
  All, Distinct, ◌≢◌, arith, eq_iff,
}
use mergeway_cli.Go.Map.{Map, get}
use mergeway_cli.Value.Defs.{null}
use mergeway_cli.Config.Model.{
  FieldDefinition, define, no_more, TypeDefinition, IdentifierDefinition, yaml,
}
use mergeway_cli.Config.Raw.{RawType, RawFieldDefinition, raw_field, no_entry, entry}
use mergeway_cli.Config.Fields.{names_of}
use mergeway_cli.Go.Text.{trim_space}
use mergeway_cli.Config.Inherit.{normalize_identifier_definition, merge_inherited_fields}
use mergeway_cli.Config.Types.{OrderedFields, normalize_type_definition}
use mergeway_cli.Config.Types.Laws.{Inherits, normalize_type_definition-Inherits}
use mergeway_cli.Config.Links.{
  IsLinked, validate_field_references, validate_field_references-IsLinked,
}

abbrev plain : String → String → List String → FieldDefinition
plain name type_name references =
    define
      (record {
        name = name;
        type_name = type_name;
        reference_types = references;
        required = false;
        repeated = false;
        format = "";
        enum = [];
        default = null;
        unique = false;
        pattern = "";
        description = "";
        property_order = [];
        source = none;
      })
      no_more

abbrev id_identifier : IdentifierDefinition
id_identifier = record { field = "id"; generated = false; pattern = "" }

abbrev asset : List String → TypeDefinition
asset references = record {
  name = "Asset";
  source = "";
  description = "";
  extends = "";
  ancestors = [];
  descendants = [];
  json_schema = "";
  identifier = id_identifier;
  include = [];
  fields = ("id", plain "id" "string" []) ∷ ("part_of", plain "part_of" "Asset" references) ∷ [];
  field_order = "id" ∷ "part_of" ∷ [];
  inline_data = [];
  write = record { template = ""; format = yaml };
}

abbrev local_fields : Map FieldDefinition
local_fields = ("size", plain "size" "integer" []) ∷ []

abbrev merged_fields : Map FieldDefinition × List String
merged_fields = (
  (("id", plain "id" "string" []) ∷ ("part_of", plain "part_of" "Asset" []) ∷ local_fields),
  ("id" ∷ "part_of" ∷ "size" ∷ []),
)

fields_merged :
    merge_inherited_fields "Image" (some (asset [])) local_fields ("size" ∷ []) ≡ ok merged_fields
unfolding merge_inherited_fields mergeway_cli.Config.Inherit.merge_local mergeway_cli.Go.Map.has
    mergeway_cli.Config.Inherit.clone_field_map get mergeway_cli.Go.Map.put
    mergeway_cli.Config.Inherit.clone_field_definition mergeway_cli.Value.Maps.clone_value
fields_merged = refl

abbrev image : RawType
image = record {
  name = "Image";
  spec = record {
    identifier = record { field = ""; generated = false; pattern = ""; set = false };
    extends = "Asset";
    include = [];
    fields = no_entry;
    json_schema = "";
    inline_data = [];
    description = "";
  };
  source = "mergeway.yaml";
}

identifier_taken : normalize_identifier_definition image (some (asset [])) ≡ ok id_identifier
unfolding normalize_identifier_definition
identifier_taken = refl

abbrev size_entry : RawFieldDefinition
size_entry =
    raw_field
      (record {
        type_name = "integer";
        required = false;
        repeated = false;
        format = "";
        enum = [];
        default = null;
        unique = none;
        pattern = "";
        description = "";
        source = record { path = false; path_segment = none; path_segment_rev = none };
      })
      no_entry no_entry

abbrev picture : RawType
picture = record {
  name = "Picture";
  spec = record {
    identifier = record { field = ""; generated = false; pattern = ""; set = false };
    extends = "Asset";
    include = record { path = "pictures/*.yaml"; selector = "" } ∷ [];
    fields = entry "size" size_entry no_entry;
    json_schema = "";
    inline_data = [];
    description = "";
  };
  source = "mergeway.yaml";
}

abbrev picture_type : TypeDefinition
picture_type = record {
  name = "Picture";
  source = "mergeway.yaml";
  description = "";
  extends = "Asset";
  ancestors = [];
  descendants = [];
  json_schema = "";
  identifier = id_identifier;
  include = record { path = "pictures/*.yaml"; selector = "" } ∷ [];
  fields = ("id", plain "id" "string" []) ∷ ("part_of", plain "part_of" "Asset" []) ∷ local_fields;
  field_order = "id" ∷ "part_of" ∷ "size" ∷ [];
  inline_data = [];
  write = record { template = ""; format = yaml };
}

-- No JSON schema loads.
abbrev no_schema : String → String → String → Result String OrderedFields
no_schema type_name path shown = err "missing"

picture_normalized :
    normalize_type_definition no_schema picture (some (asset [])) false ≡ ok picture_type
unfolding normalize_type_definition mergeway_cli.Go.Text.trim_space mergeway_cli.Go.Text.trim_right
    mergeway_cli.Go.Text.trim_left normalize_identifier_definition
    mergeway_cli.Config.Types.own_fields mergeway_cli.Config.Types.normalize_entries
    mergeway_cli.Config.Types.check_derived merge_inherited_fields
    mergeway_cli.Config.Inherit.merge_local mergeway_cli.Go.Text.is_space
    mergeway_cli.Config.Fields.normalize_include_directives
    mergeway_cli.Config.Inherit.clone_field_map mergeway_cli.Config.Types.clone_inline_data
    mergeway_cli.Config.Fields.include_directives mergeway_cli.Config.Inherit.clone_field_definition
    mergeway_cli.Prelude.member mergeway_cli.Value.Maps.clone_value
    mergeway_cli.Config.Names.is_valid_identifier mergeway_cli.Go.Text.all_chars
    mergeway_cli.Config.Fields.normalize_field_definition
    mergeway_cli.Config.Fields.normalize_field_source mergeway_cli.Go.Map.put
    mergeway_cli.Go.Map.has get
picture_normalized = refl

one_field : Distinct (names_of picture.spec.fields)
unfolding mergeway_cli.Prelude.member
one_field = (refl, tt)

picture_extends : trim_space picture.spec.extends ≢ ""
unfolding trim_space mergeway_cli.Go.Text.trim_right mergeway_cli.Go.Text.trim_left
    mergeway_cli.Go.Text.is_space
picture_extends h = ground (arith, (eq_iff "Asset" "").1 h)

normalize_type_definition-Inherits_example : Inherits picture (asset []) picture_type
normalize_type_definition-Inherits_example =
    normalize_type_definition-Inherits no_schema picture (asset []) false picture_extends one_field
      picture_normalized

abbrev unlinked : Map TypeDefinition
unlinked = ("Asset", asset []) ∷ []

abbrev linked : Map TypeDefinition
linked = ("Asset", asset ("Asset" ∷ [])) ∷ []

assets_linked : validate_field_references unlinked unlinked ≡ ok linked
unfolding validate_field_references mergeway_cli.Config.Links.validate_type_references
    mergeway_cli.Config.Links.validate_field_reference
    mergeway_cli.Config.References.parse_reference_types
    mergeway_cli.Config.References.parse_trimmed mergeway_cli.Go.Text.trim_space
    mergeway_cli.Go.Text.trim_right mergeway_cli.Go.Text.trim_left mergeway_cli.Go.Text.is_space
    mergeway_cli.Config.References.is_primitive mergeway_cli.Prelude.member
    mergeway_cli.Config.Links.check_known mergeway_cli.Go.Text.contains
    mergeway_cli.Config.Names.is_valid_type_name mergeway_cli.Config.Names.is_valid_identifier
    mergeway_cli.Go.Text.all_chars mergeway_cli.Go.Map.has
assets_linked = refl

validate_field_references-IsLinked_example :
    All (λ t. All (λ q. IsLinked unlinked q.1) t.1.fields) linked
validate_field_references-IsLinked_example =
    validate_field_references-IsLinked unlinked unlinked assets_linked
