-- ===== src/Config/Types.antt =====
-- `normalizeTypeDefinition` of internal/config/normalize.go. Loading the fields from a JSON schema is
-- a parameter.
pub mod Laws
use mergeway_cli.Prelude.{
  String, Bool, true, false, not, ◌&&◌, ◌||◌, Option, none, some, Result, ok, err, ◌>>=◌, ◌>>◌,
  reject_if, List, [], ◌∷◌, ◌++◌, ◌==◌, if◌then◌else◌,
}
use mergeway_cli.Go.Map.{Map, put}
use mergeway_cli.Go.Text.{trim_space}
use mergeway_cli.Go.FilePath.{dir, is_abs, join_path}
use mergeway_cli.Value.Defs.{Fields}
use mergeway_cli.Value.Maps.{clone_map}
use mergeway_cli.Config.Model.{
  FieldDefinition, spec, is_path, is_path_derived, TypeDefinition, IdentifierDefinition,
  WriteDefinition, yaml,
}
use mergeway_cli.Config.Raw.{RawType, RawEntries, no_entry, entry}
use mergeway_cli.Config.Names.{is_valid_identifier}
use mergeway_cli.Config.Fields.{
  FieldError, has_entries, normalize_field_definition, normalize_include_directives,
}
use mergeway_cli.Config.Inherit.{
  InheritError, normalize_identifier_definition, merge_inherited_fields,
}

pub data TypeError : Type 0 where
  fields_and_schema no_fields schema_inherits : String → TypeError
  bad_identifier : InheritError → TypeError
  path_with_data no_includes unnamed_field : String → TypeError
  invalid_field : String → String → TypeError
  bad_field : FieldError → TypeError
  schema_failed : String → TypeError
  source_with_data source_identifier : String → String → TypeError

abbrev pub identifier_of : {A : Type 0} → Result InheritError A → Result TypeError A
identifier_of (ok a) = ok a
identifier_of (err e) = err (bad_identifier e)

abbrev pub field_of : {A : Type 0} → Result FieldError A → Result TypeError A
field_of (ok a) = ok a
field_of (err e) = err (bad_field e)

abbrev pub schema_of : {A : Type 0} → Result String A → Result TypeError A
schema_of (ok a) = ok a
schema_of (err e) = err (schema_failed e)

abbrev pub has_any : {A : Type 0} → List A → Bool
has_any [] = false
has_any (x ∷ xs) = true

abbrev pub is_none : {A : Type 0} → Option A → Bool
is_none none = true
is_none (some a) = false

-- a map of fields with its order
abbrev pub OrderedFields : Type 0
OrderedFields = Map FieldDefinition × List String

-- The loop over the entries of `fields`.
unfoldable pub normalize_entries :
    String → OrderedFields → RawEntries → Result TypeError OrderedFields
normalize_entries type_name fs no_entry = ok fs
normalize_entries type_name fs (entry name raw es) = do
  reject_if (name == "") (unnamed_field type_name)
  reject_if (not (is_valid_identifier name)) (invalid_field type_name name)
  field_of (normalize_field_definition raw name (type_name ∷ [])) >>= λ f.
      normalize_entries type_name (put fs.0 name f, fs.1 ++ name ∷ []) es

-- The loop over the fields that are derived from the path.
unfoldable pub check_derived :
    String → String → Bool → Map FieldDefinition → Result TypeError (Unit {0})
check_derived type_name identifier has_data [] = ok tt
check_derived type_name identifier has_data ((name, f) ∷ fs) =
    let rest = check_derived type_name identifier has_data fs in
    if not (is_path_derived (spec f).source)
    then rest
    else if has_data
    then err (source_with_data type_name name)
    else if identifier == name
    then err (source_identifier type_name name)
    else rest

-- `cloneInlineData`; a copy of a map is as `cloneMap` makes it
unfoldable pub clone_inline_data : List Fields → List Fields
clone_inline_data [] = []
clone_inline_data (m ∷ ms) = clone_map m ∷ clone_inline_data ms

-- the path of the JSON schema, from the directory of the file that names it
abbrev pub schema_path : String → String → String
schema_path source path = if is_abs path then path else join_path (dir source) path

module _ (load_schema : String → String → String → Result String OrderedFields) where
  -- the fields that the type itself declares
  unfoldable pub own_fields : RawType → String → Result TypeError OrderedFields
  own_fields raw schema =
      if schema == ""
      then normalize_entries raw.name ([], []) raw.spec.fields
      else schema_of (load_schema raw.name (schema_path raw.source schema) schema)

  -- `normalizeTypeDefinition`; the caller fills in the ancestors, the descendants and the format.
  unfoldable pub normalize_type_definition :
      RawType → Option TypeDefinition → Bool → Result TypeError TypeDefinition
  normalize_type_definition raw parent has_children = do
    let extends : String = trim_space raw.spec.extends
    let schema : String = trim_space raw.spec.json_schema
    reject_if (not (schema == "") && has_entries raw.spec.fields) (fields_and_schema raw.name)
    reject_if (is_none parent && schema == "" && not (has_entries raw.spec.fields))
        (no_fields raw.name)
    reject_if (not (schema == "") && (not (extends == "") || has_children))
        (schema_inherits raw.name)
    identifier ← identifier_of (normalize_identifier_definition raw parent)
    reject_if (is_path identifier && has_any raw.spec.inline_data) (path_with_data raw.name)
    reject_if
        (not (has_any raw.spec.include) && not (has_any raw.spec.inline_data) && not has_children)
        (no_includes raw.name)
    own ← own_fields raw schema
    check_derived raw.name identifier.field (has_any raw.spec.inline_data) own.0
    merged ← identifier_of (merge_inherited_fields raw.name parent own.0 own.1)
    ok (record {
      name = raw.name;
      source = raw.source;
      description = raw.spec.description;
      extends = extends;
      ancestors = [];
      descendants = [];
      json_schema = schema;
      identifier = identifier;
      include = normalize_include_directives raw.spec.include;
      fields = merged.0;
      field_order = merged.1;
      inline_data = clone_inline_data raw.spec.inline_data;
      write = record { template = ""; format = yaml };
    })
