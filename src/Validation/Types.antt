-- ===== src/Validation/Types.antt =====
-- internal/validation/types.go, and the identifiers and places of objects in its util.go.
use Prim.Native.String
use mergeway_cli.Prelude.{
  ◌+◌, String, Bool, Option, none, some, List, ◌==◌, ◌||◌, if◌then◌else◌, Result, ok, err,
}
use mergeway_cli.Go.Int.{ℤ, pos, negsuc, format_uint}
use mergeway_cli.Go.Text.{trim_space}
use mergeway_cli.Go.FilePath.{clean}
use mergeway_cli.Value.Defs.{Fields, end}
use mergeway_cli.Value.Scalar.{FloatFormat, get_string}
use mergeway_cli.Config.Model.{TypeDefinition, is_path}

pub data Phase : Type 0 where
  format schema references : Phase

-- The messages of the errors, with what they are made of.
pub data Message : Type 0 where
  object_is_empty : Message
  identifier_missing : String → Message
  identifier_not_file_backed : Message
  identifier_pattern_invalid identifier_pattern_mismatch : String → Message
  duplicate_identifier : String → Message
  duplicate_in_hierarchy : String → String → Message
  must_be_unique : String → String → Message
  missing_required must_be_array : String → Message
  must_be : String → String → Message
  not_in_enum : String → List String → Message
  pattern_invalid pattern_mismatch format_mismatch : String → String → Message
  references_missing : String → String → String → Message
  reference_ambiguous : String → String → List String → Message

pub record Error : Type 0 where
  pub phase : Phase
  pub type_name : String
  pub id : String
  pub file : String
  pub message : Message

-- `rawObject`; the map of an empty document is `nil`, here `none`.
pub record RawObject : Type 0 where
  pub type_def : TypeDefinition
  pub file : String
  pub source : String
  pub index : ℤ
  pub fields : Option Fields
  pub id : String
  pub inline : Bool

abbrev located : String → ℤ → String
located file (pos n) =
    String.◌++◌ file (String.◌++◌ " (item " (String.◌++◌ (format_uint (n + 1)) ")"))
located file (negsuc n) = file

-- `objectLocation`
unfoldable pub object_location : RawObject → String
object_location o = located o.file o.index

-- an error of the schema phase at the object
abbrev pub schema_error : RawObject → Message → Error
schema_error o message = record {
  phase = schema;
  type_name = o.type_def.name;
  id = o.id;
  file = object_location o;
  message = message;
}

-- `normalizePathIdentifier`
unfoldable pub normalize_path_identifier : String → Result Message String
normalize_path_identifier path =
    let trimmed = trim_space path in
    let cleaned = clean trimmed in
    if trimmed == ""
    then err identifier_not_file_backed
    else if cleaned == "." || cleaned == ""
    then err identifier_not_file_backed
    else ok cleaned

-- `data` where it may be `nil`
abbrev pub entries : Option Fields → Fields
entries none = end
entries (some m) = m

abbrev or_missing : String → Option String → Result Message String
or_missing name none = err (identifier_missing name)
or_missing name (some id) = ok id

-- `identifierForObject`
unfoldable pub identifier_for_object : FloatFormat → RawObject → Result Message String
identifier_for_object floats o =
    if is_path o.type_def.identifier
    then (if o.inline then err identifier_not_file_backed else normalize_path_identifier o.source)
    else or_missing o.type_def.identifier.field
        (get_string floats (entries o.fields) o.type_def.identifier.field)
