-- ===== src/Config/Fields.antt =====
-- `normalizeFieldSource`, `normalizeFieldDefinition` and `normalizeIncludeDirectives` of
-- internal/config/normalize.go.
pub mod Laws
pub mod Includes
use Prim.Native.String
use mergeway_cli.Prelude.{
  ℕ, zero, suc, ◌+◌, ◌<◌, String, Bool, true, false, Option, none, some, List, [], ◌∷◌, ◌++◌, ◌==◌,
  not, ◌&&◌, ◌||◌, if◌then◌else◌, Result, ok, err, ◌>>=◌, ◌>>◌, reject_if, ltb, member,
}
use mergeway_cli.Go.Int.{ℤ, pos, negsuc}
use mergeway_cli.Value.Defs.{Value, null}
use mergeway_cli.Config.Model.{
  FieldSourceDefinition, is_some, FieldSpec, FieldDefinition, define, Properties, no_more, property,
  IncludeDefinition,
}
use mergeway_cli.Config.Raw.{
  RawFieldSpec, RawFieldDefinition, raw_field, RawEntries, no_entry, entry,
}
use mergeway_cli.Config.Names.{is_valid_identifier}

-- The messages of the errors, with the path of the type and fields, and the field's name.
pub data FieldError : Type 0 where
  missing_type unique_repeated properties_not_object nested_fields :
      List String → String → FieldError
  several_selectors negative_segment negative_segment_rev : List String → String → FieldError
  source_repeated source_not_text source_default : List String → String → FieldError
  no_properties : List String → String → FieldError
  invalid_property : List String → String → String → FieldError

abbrev pub is_negative : Option ℤ → Bool
is_negative none = false
is_negative (some (pos n)) = false
is_negative (some (negsuc n)) = true

abbrev pub count_if : Bool → ℕ
count_if true = 1
count_if false = 0

-- `normalizeFieldSource`
unfoldable pub normalize_field_source :
    FieldSourceDefinition → String → List String → Result FieldError (Option FieldSourceDefinition)
normalize_field_source raw name path =
    let selected : ℕ =
      count_if raw.path
      + (count_if (is_some raw.path_segment) + count_if (is_some raw.path_segment_rev)) in
    if ltb selected 1
    then ok none
    else if ltb 1 selected
    then err (several_selectors path name)
    else if is_negative raw.path_segment
    then err (negative_segment path name)
    else if is_negative raw.path_segment_rev
    then err (negative_segment_rev path name)
    else ok (
        some (record {
          path = raw.path;
          path_segment = raw.path_segment;
          path_segment_rev = raw.path_segment_rev;
        }))

abbrev pub is_true : Option Bool → Bool
is_true none = false
is_true (some b) = b

abbrev pub has_entries : RawEntries → Bool
has_entries no_entry = false
has_entries (entry n f es) = true

abbrev pub is_null : Value → Bool
is_null null = true
is_null v = false

-- the checks of `normalizeFieldDefinition` on a field with a source
abbrev pub check_source :
    Option FieldSourceDefinition
    → RawFieldSpec
    → String
    → List String
    → Result FieldError (Unit {0})
check_source none raw name path = ok tt
check_source (some source) raw name path = do
  reject_if raw.repeated (source_repeated path name)
  reject_if
      (raw.type_name == "integer"
        || raw.type_name == "number"
        || raw.type_name == "boolean"
        || raw.type_name == "object")
      (source_not_text path name)
  reject_if (not (is_null raw.default)) (source_default path name)

abbrev pub names_of : RawEntries → List String
names_of no_entry = []
names_of (entry n f es) = n ∷ names_of es

-- `properties[name] = child`
unfoldable pub put_property : Properties → String → FieldDefinition → Properties
put_property no_more k f = property k f no_more
put_property (property j g ps) k f =
    if j == k then property k f ps else property j g (put_property ps k f)

-- the definition that `normalizeFieldDefinition` returns
abbrev pub finished :
    RawFieldSpec
    → String
    → Option FieldSourceDefinition
    → List String
    → Properties
    → FieldDefinition
finished raw name source order = define (record {
  name = name;
  type_name = raw.type_name;
  reference_types = [];
  required = raw.required;
  repeated = raw.repeated;
  format = raw.format;
  enum = raw.enum;
  default = raw.default;
  unique = is_true raw.unique;
  pattern = raw.pattern;
  description = raw.description;
  property_order = order;
  source = source;
})

-- `normalizeFieldDefinition`, with the loop over the properties of an object. The path is that of
-- the messages: the type's name, and the names of the fields that the field lies in.
unfoldable mutual
  pub normalize_field_definition :
      RawFieldDefinition → String → List String → Result FieldError FieldDefinition
  normalize_field_definition (raw_field raw props nested) name path = do
    reject_if (raw.type_name == "") (missing_type path name)
    reject_if (raw.repeated && is_true raw.unique) (unique_repeated path name)
    reject_if (has_entries props && not (raw.type_name == "object"))
        (properties_not_object path name)
    reject_if (has_entries nested) (nested_fields path name)
    source ← normalize_field_source raw.source name path
    check_source source raw name path
    let is_object : Bool = raw.type_name == "object"
    reject_if (is_object && not (has_entries props)) (no_properties path name)
    ps ← normalize_properties props name path is_object no_more
    ok (finished raw name source (if is_object then names_of props else []) ps)

  -- the loop; `ps` are the properties so far
  pub normalize_properties :
      RawEntries → String → List String → Bool → Properties → Result FieldError Properties
  normalize_properties no_entry name path is_object ps = ok ps
  normalize_properties (entry prop f es) name path is_object ps =
      if is_object
      then (reject_if (not (is_valid_identifier prop)) (invalid_property path name prop) >>= λ _.
          normalize_field_definition f prop (path ++ name ∷ []) >>= λ child.
          normalize_properties es name path is_object (put_property ps prop child))
      else ok ps

-- `key := entry.Path + "\x00" + entry.Selector`
abbrev pub include_key : IncludeDefinition → String
include_key e = String.◌++◌ e.path (String.◌++◌ "\0" e.selector)

-- The loop of `normalizeIncludeDirectives`.
unfoldable pub include_directives : List String → List IncludeDefinition → List IncludeDefinition
include_directives seen [] = []
include_directives seen (e ∷ entries) =
    let skip = include_directives seen entries in
    let taken = e ∷ include_directives (include_key e ∷ seen) entries in
    if e.path == "" then skip else if member seen (include_key e) then skip else taken

-- `normalizeIncludeDirectives`
unfoldable pub normalize_include_directives : List IncludeDefinition → List IncludeDefinition
normalize_include_directives entries = include_directives [] entries
