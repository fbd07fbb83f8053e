-- ===== src/Validation/Schema.antt =====
-- `validateTypeSchema` and its callees, of internal/validation/schema.go.
pub mod Laws
use Prim.Native.String
use mergeway_cli.Prelude.{
  ℕ, String, Bool, true, false, not, Option, none, some, List, [], ◌∷◌, ◌++◌, ◌==◌, if◌then◌else◌,
  Result, ok, err, ◌>>=◌,
}
use mergeway_cli.Go.Int.{format_int, format_uint}
use mergeway_cli.Go.Map.{Map, get, put}
use mergeway_cli.Value.Defs.{
  Value, null, bool, int, uint, float, number, stringer, str, arr, obj, any_map, Fields, FloatWidth,
}
use mergeway_cli.Value.Maps.{find}
use mergeway_cli.Value.Scalar.{FloatFormat}
use mergeway_cli.Config.Model.{FieldDefinition, spec, TypeDefinition}
use mergeway_cli.Validation.Types.{
  Message, object_is_empty, identifier_pattern_invalid, identifier_pattern_mismatch,
  duplicate_identifier, must_be_unique, Error, schema, RawObject, object_location, schema_error,
  identifier_for_object,
}
use mergeway_cli.Validation.Field.{TextTests, match_pattern, validate_field, value_at}

-- What fmt and encoding/json make of a value: `%g`, `%v`, and `json.Marshal`, `none` where it fails.
pub record KeyTexts : Type 0 where
  pub general_float : FloatWidth → ℕ → String
  pub print : Value → String
  pub marshal : Value → Option String

-- `uniqueTrack`: by the field, by the text of the value, the identifier of the first object
abbrev pub UniqueTrack : Type 0
UniqueTrack = Map (Map String)

-- the error of `validateTypeSchema` for an object
abbrev pub object_error : TypeDefinition → RawObject → String → Message → Error
object_error t o id message = record {
  phase = schema;
  type_name = t.name;
  id = id;
  file = object_location o;
  message = message;
}

-- `obj.id = id`
abbrev pub with_id : RawObject → String → RawObject
with_id o id = record {
  type_def = o.type_def;
  file = o.file;
  source = o.source;
  index = o.index;
  fields = o.fields;
  id = id;
  inline = o.inline;
}

-- What a run over the objects leaves: `index.byType[typeDef.Name]`, the objects with the
-- identifiers it sets, and the errors.
pub record SchemaRun : Type 0 where
  pub indexed : Map RawObject
  pub objects : List RawObject
  pub errors : List Error

abbrev pub after : RawObject → List Error → SchemaRun → SchemaRun
after o errors rest = record {
  indexed = rest.indexed;
  objects = o ∷ rest.objects;
  errors = errors ++ rest.errors;
}

abbrev pub or_empty {ℓ} : {V : Type ℓ} → Option (Map V) → Map V
or_empty none = []
or_empty (some m) = m

abbrev pub no_errors : List Error → Bool
no_errors [] = true
no_errors (e ∷ es) = false

module _ (floats : FloatFormat) (texts : TextTests) (prints : KeyTexts) where
  abbrev marshalled : Value → Option String → String
  marshalled v none = prints.print v
  marshalled v (some s) = s

  -- `normalizedUniqueKey`
  unfoldable pub normalized_unique_key : Value → String
  normalized_unique_key (str s) = s
  normalized_unique_key (stringer s) = s
  normalized_unique_key (number s) = s
  normalized_unique_key (bool b) = if b then "true" else "false"
  normalized_unique_key (int w i) = format_int i
  normalized_unique_key (uint w n) = format_uint n
  normalized_unique_key (float w bits) = prints.general_float w bits
  normalized_unique_key (arr vs) = marshalled (arr vs) (prints.marshal (arr vs))
  normalized_unique_key (obj m) = marshalled (obj m) (prints.marshal (obj m))
  normalized_unique_key v = prints.print v

  -- the branch of the loop over the fields for a unique field that has a value with a key
  abbrev pub track_key : UniqueTrack → String → String → RawObject → UniqueTrack × List Error
  track_key track name key o = elim (get (or_empty (get track name)) key) [
    | some first_id ↦ (track, schema_error o (must_be_unique name first_id) ∷ [])
    | none ↦ (put track name (put (or_empty (get track name)) key o.id), [])
  ]

  -- `if fieldDef.Unique { ... }`; an empty map under the field is like none.
  abbrev pub check_unique :
      UniqueTrack → String → FieldDefinition → Fields → RawObject → UniqueTrack × List Error
  check_unique track name f m o = if not (spec f).unique then (track, []) else elim (find m name) [
    | none ↦ (track, [])
    | some v ↦
        if normalized_unique_key v == ""
        then (track, [])
        else track_key track name (normalized_unique_key v) o
  ]

  -- the loop over `typeDef.Fields`
  unfoldable pub check_fields :
      Map FieldDefinition → UniqueTrack → Fields → RawObject → UniqueTrack × List Error
  check_fields [] track m o = (track, [])
  check_fields ((name, f) ∷ fs) track m o =
      let now = check_unique track name f m o in
      let later = check_fields fs now.0 m o in
      (later.0, validate_field floats texts f (value_at m name) o name ++ (now.1 ++ later.1))

  abbrev pub document : TypeDefinition → RawObject → Option Fields → Result Error Fields
  document t o none = err (object_error t o "" object_is_empty)
  document t o (some m) = ok m

  abbrev pub identifier : TypeDefinition → RawObject → Result Message String → Result Error String
  identifier t o (err e) = err (object_error t o "" e)
  identifier t o (ok id) = ok id

  abbrev pub matched : TypeDefinition → RawObject → String → Option Bool → Result Error String
  matched t o id none = err (object_error t o id (identifier_pattern_invalid t.identifier.pattern))
  matched t o id (some false) =
      err (object_error t o id (identifier_pattern_mismatch t.identifier.pattern))
  matched t o id (some true) = ok id

  abbrev pub patterned : TypeDefinition → RawObject → String → Result Error String
  patterned t o id =
      if t.identifier.pattern == ""
      then ok id
      else matched t o id (match_pattern floats texts t.identifier.pattern id)

  abbrev pub fresh : TypeDefinition → RawObject → String → Option RawObject → Result Error String
  fresh t o id none = ok id
  fresh t o id (some first) =
      err (object_error t o id (duplicate_identifier (object_location first)))

  -- The checks of an object before its fields: its document and its identifier.
  unfoldable pub identify :
      TypeDefinition → Map RawObject → RawObject → Result Error (String × Fields)
  identify t indexed o = document t o o.fields >>= λ m.
      identifier t o (identifier_for_object floats o) >>= λ id.
      patterned t o id >>= λ _. fresh t o id (get indexed id) >>= λ _. ok (id, m)

  -- The loop over the objects. `hadError` is set where the loop over the fields adds an error.
  unfoldable pub validate_objects :
      TypeDefinition → Map RawObject → UniqueTrack → List RawObject → SchemaRun
  validate_objects t indexed track [] = record { indexed = indexed; objects = []; errors = [] }
  validate_objects t indexed track (o ∷ os) = elim (identify t indexed o) [
    | err e ↦ after o (e ∷ []) (validate_objects t indexed track os)
    | ok p ↦
        let named = with_id o p.0 in
        let checked = check_fields t.fields track p.1 named in
        after named checked.1 (
          validate_objects t (if no_errors checked.1 then put indexed p.0 named else indexed)
            checked.0 os)
  ]

  -- `validateTypeSchema` on a type that the index does not have yet
  unfoldable pub validate_type_schema : List RawObject → TypeDefinition → SchemaRun
  validate_type_schema os t = validate_objects t [] [] os
