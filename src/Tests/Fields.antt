-- ===== src/Tests/Fields.antt =====
-- Definitions of fields, references and sources at concrete inputs.
use mergeway_cli.Prelude.{
  String, ◌≡◌, refl, ◌≢◌, true, false, none, some, List, [], ◌∷◌, ok, err, member, Distinct,
}
use mergeway_cli.Go.Text.{join}
use mergeway_cli.Go.Int.{pos}
use mergeway_cli.Value.Defs.{null}
use mergeway_cli.Config.Model.{
  IncludeDefinition, FieldSourceDefinition, FieldSpec, FieldDefinition, define, no_more, property,
}
use mergeway_cli.Config.Raw.{RawFieldSpec, RawFieldDefinition, raw_field, no_entry, entry}
use mergeway_cli.Config.References.{parse_reference_types}
use mergeway_cli.Config.References.Sound.{AreReferences, parse_reference_types-AreReferences}
use mergeway_cli.Config.References.RoundTrip.{parse_reference_types-join}
use mergeway_cli.Config.Fields.{
  normalize_field_source, normalize_field_definition, normalize_include_directives,
}
use mergeway_cli.Config.Fields.Laws.{IsField, normalize_field_definition-IsField}
use mergeway_cli.Config.Fields.Includes.{include_keys, with_path, normalize_include_directives-keys}
use mergeway_cli.Config.PathSource.{
  panics, segment_out_of_range, derive_path_source_value, derive_path_source_value-no_panic,
}

union_parsed : parse_reference_types " User |Team " ≡ ok ("User" ∷ "Team" ∷ [])
unfolding parse_reference_types mergeway_cli.Config.References.parse_trimmed
    mergeway_cli.Go.Text.trim_space mergeway_cli.Go.Text.trim_right mergeway_cli.Go.Text.trim_left
    mergeway_cli.Go.Text.is_space mergeway_cli.Config.References.is_primitive member
    mergeway_cli.Go.Text.contains mergeway_cli.Config.References.union_members
    mergeway_cli.Go.Text.split mergeway_cli.Config.Names.is_valid_type_name
    mergeway_cli.Config.Names.is_valid_identifier mergeway_cli.Go.Text.all_chars
union_parsed = refl

parse_reference_types-AreReferences_example : AreReferences ("User" ∷ "Team" ∷ [])
parse_reference_types-AreReferences_example =
    parse_reference_types-AreReferences " User |Team " union_parsed

parse_reference_types-join_example :
    parse_reference_types (join ("User" ∷ "Team" ∷ []) " | ") ≡ ok ("User" ∷ "Team" ∷ [])
parse_reference_types-join_example =
    parse_reference_types-join "User" ("Team" ∷ [])
      (parse_reference_types-AreReferences " User |Team " union_parsed)

abbrev no_source : FieldSourceDefinition
no_source = record { path = false; path_segment = none; path_segment_rev = none }

abbrev raw_spec : String → RawFieldSpec
raw_spec type_name = record {
  type_name = type_name;
  required = true;
  repeated = false;
  format = "";
  enum = [];
  default = null;
  unique = none;
  pattern = "";
  description = "";
  source = no_source;
}

abbrev address : RawFieldDefinition
address =
    raw_field (raw_spec "object")
      (entry "city" (raw_field (raw_spec "string") no_entry no_entry) no_entry) no_entry

abbrev normal_spec : String → String → List String → FieldSpec
normal_spec name type_name order = record {
  name = name;
  type_name = type_name;
  reference_types = [];
  required = true;
  repeated = false;
  format = "";
  enum = [];
  default = null;
  unique = false;
  pattern = "";
  description = "";
  property_order = order;
  source = none;
}

abbrev normal_address : FieldDefinition
normal_address =
    define (normal_spec "address" "object" ("city" ∷ []))
      (property "city" (define (normal_spec "city" "string" []) no_more) no_more)

address_normalized : normalize_field_definition address "address" ("User" ∷ []) ≡ ok normal_address
unfolding normalize_field_definition normalize_field_source
    mergeway_cli.Config.Names.is_valid_identifier mergeway_cli.Go.Text.all_chars
    mergeway_cli.Config.Fields.put_property
address_normalized = refl

normalize_field_definition-IsField_example : IsField normal_address
normalize_field_definition-IsField_example =
    normalize_field_definition-IsField address "address" ("User" ∷ []) address_normalized

abbrev directives : List IncludeDefinition
directives =
    record { path = "data/*.yaml"; selector = "" }
    ∷ record { path = ""; selector = "$.items" }
    ∷ record { path = "data/*.yaml"; selector = "" }
    ∷ []

normalize_include_directives-keys_example :
    Distinct (include_keys (normalize_include_directives directives))
    × ((k : String)
        → member (include_keys (normalize_include_directives directives)) k
          ≡ member (include_keys (with_path directives)) k)
normalize_include_directives-keys_example = normalize_include_directives-keys directives

abbrev last_segment : FieldSourceDefinition
last_segment = record { path = false; path_segment = none; path_segment_rev = some (pos 0) }

last_segment_normalized :
    normalize_field_source last_segment "file" ("User" ∷ []) ≡ ok (some last_segment)
unfolding normalize_field_source
last_segment_normalized = refl

last_segment_derived :
    derive_path_source_value (some last_segment) " data/./users/one.yaml" ≡ ok "one.yaml"
unfolding derive_path_source_value mergeway_cli.Go.Text.trim_space mergeway_cli.Go.Text.trim_right
    mergeway_cli.Go.Text.trim_left mergeway_cli.Go.Text.is_space mergeway_cli.Go.FilePath.clean
    mergeway_cli.Go.FilePath.is_abs join mergeway_cli.Go.FilePath.clean_parts
    mergeway_cli.Go.Text.split mergeway_cli.Go.FilePath.clean_step
    mergeway_cli.Config.PathSource.segment_rev_at
last_segment_derived = refl

derive_path_source_value-no_panic_example :
    derive_path_source_value (some last_segment) "data/users/one.yaml" ≢ err panics
derive_path_source_value-no_panic_example =
    derive_path_source_value-no_panic last_segment "file" ("User" ∷ []) "data/users/one.yaml"
      last_segment_normalized
