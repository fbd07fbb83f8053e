-- ===== src/Validation/Field.antt =====
-- `validateField` of internal/validation/schema.go and internal/validation/field.go.
use Prim.Native.String
use mergeway_cli.Prelude.{
  ℕ, ◌+◌, String, Bool, true, false, Option, none, some, List, [], ◌∷◌, ◌++◌, ◌==◌, ◌||◌,
  if◌then◌else◌, member,
}
use mergeway_cli.Go.Int.{format_uint}
use mergeway_cli.Value.Defs.{
  Value, null, bool, int, uint, float, str, arr, obj, Items, nil, cons, Fields, native, w64, f64,
}
use mergeway_cli.Value.Maps.{find}
use mergeway_cli.Value.Scalar.{FloatFormat, as_string}
use mergeway_cli.Config.Model.{
  FieldSpec, FieldDefinition, define, Properties, no_more, property, spec,
}
use mergeway_cli.Validation.Types.{
  missing_required, must_be_array, must_be, not_in_enum, pattern_invalid, pattern_mismatch,
  format_mismatch, Error, RawObject, schema_error,
}

-- The regular expressions and the formats of texts, which the standard library of Go decides.
-- `none` is a pattern that does not compile.
pub record TextTests : Type 0 where
  pub match_regexp : String → String → Option Bool
  pub is_valid_email : String → Bool
  pub is_valid_uri : String → Bool
  pub to_lower : String → String

-- The values that a field takes, as it is named in the messages.
abbrev item_name : String → ℕ → String
item_name field_name idx =
    String.◌++◌ field_name (String.◌++◌ "[" (String.◌++◌ (format_uint idx) "]"))

abbrev child_name : String → String → String
child_name field_name name = String.◌++◌ field_name (String.◌++◌ "." name)

abbrev error_unless : Bool → Error → Option Error
error_unless true e = none
error_unless false e = some e

abbrev pub first_of_errors : List Error → Option Error
first_of_errors [] = none
first_of_errors (e ∷ es) = some e

abbrev pub list_of : Option Error → List Error
list_of none = []
list_of (some e) = e ∷ []

-- `m[name]`
abbrev pub value_at : Fields → String → Value
value_at m name = elim (find m name) [ none ↦ null | some v ↦ v ]

module _ (floats : FloatFormat) (texts : TextTests) where
  open texts use {match_regexp, is_valid_email, is_valid_uri, to_lower}

  -- `matchPattern`; its cache of compiled expressions does not change what it returns.
  unfoldable pub match_pattern : String → String → Option Bool
  match_pattern pattern value = if pattern == "" then some true else match_regexp pattern value

  -- `formatValidators[strings.ToLower(format)]`, true where there is no validator
  unfoldable pub satisfies_format : String → String → Bool
  satisfies_format format value =
      let name = to_lower format in
      if name == "email"
      then is_valid_email value
      else if name == "uri" || name == "url"
      then is_valid_uri value
      else true

  -- the end of `enforceStringConstraints`, after the pattern
  abbrev enforce_format : FieldSpec → String → RawObject → String → Option Error
  enforce_format f value o field_name =
      if f.format == ""
      then none
      else error_unless (satisfies_format f.format value)
          (schema_error o (format_mismatch field_name f.format))

  abbrev enforce_matched : Option Bool → FieldSpec → String → RawObject → String → Option Error
  enforce_matched none f value o field_name =
      some (schema_error o (pattern_invalid field_name f.pattern))
  enforce_matched (some false) f value o field_name =
      some (schema_error o (pattern_mismatch field_name f.pattern))
  enforce_matched (some true) f value o field_name = enforce_format f value o field_name

  -- `enforceStringConstraints`
  unfoldable pub enforce_string_constraints : FieldSpec → String → RawObject → String → Option Error
  enforce_string_constraints f value o field_name =
      if f.pattern == ""
      then enforce_format f value o field_name
      else enforce_matched (match_pattern f.pattern value) f value o field_name

  -- `typeError`
  abbrev type_error : RawObject → String → String → Option Error
  type_error o field_name expected = some (schema_error o (must_be field_name expected))

  abbrev validate_string : FieldSpec → Value → RawObject → String → Option Error
  validate_string f (str s) o field_name = enforce_string_constraints f s o field_name
  validate_string f v o field_name = type_error o field_name "string"

  -- The cases of the `switch` on the type of an integer: `int`, `int64` and `uint64`.
  abbrev pub is_integer_value : Value → Bool
  is_integer_value (int native i) = true
  is_integer_value (int w64 i) = true
  is_integer_value (uint w64 n) = true
  is_integer_value v = false

  abbrev pub is_number_value : Value → Bool
  is_number_value (float f64 bits) = true
  is_number_value v = is_integer_value v

  abbrev pub is_bool_value : Value → Bool
  is_bool_value (bool b) = true
  is_bool_value v = false

  abbrev pub in_enum : List String → String → Bool
  in_enum [] s = true
  in_enum (e ∷ es) s = member (e ∷ es) s

  abbrev validate_enum : FieldSpec → Value → RawObject → String → Option Error
  validate_enum f (str s) o field_name =
      if in_enum f.enum s
      then enforce_string_constraints f s o field_name
      else some (schema_error o (not_in_enum field_name f.enum))
  validate_enum f v o field_name = type_error o field_name "enum value (string)"

  abbrev pub is_scalar_value : Option String → Bool
  is_scalar_value none = false
  is_scalar_value (some s) = true

  -- The cases of `validateFieldValue` but for `object`.
  unfoldable pub validate_plain : FieldSpec → Value → RawObject → String → Option Error
  validate_plain f v o field_name =
      if f.type_name == "string"
      then validate_string f v o field_name
      else if f.type_name == "integer"
      then error_unless (is_integer_value v) (schema_error o (must_be field_name "integer"))
      else if f.type_name == "number"
      then error_unless (is_number_value v) (schema_error o (must_be field_name "number"))
      else if f.type_name == "boolean"
      then error_unless (is_bool_value v) (schema_error o (must_be field_name "boolean"))
      else if f.type_name == "enum"
      then validate_enum f v o field_name
      else error_unless (is_scalar_value (as_string floats v))
          (schema_error o (must_be field_name "string or number"))

  -- the loop of `validateField` over the items of an array
  abbrev pub validate_items : (Value → String → Option Error) → Items → String → ℕ → List Error
  validate_items validate nil field_name idx = []
  validate_items validate (cons v vs) field_name idx =
      list_of (validate v (item_name field_name idx))
      ++ validate_items validate vs field_name (idx + 1)

  abbrev pub validate_repeated :
      (Value → String → Option Error) → Value → RawObject → String → List Error
  validate_repeated validate (arr vs) o field_name = validate_items validate vs field_name 0
  validate_repeated validate v o field_name = schema_error o (must_be_array field_name) ∷ []

  -- a value that is there, or the default
  abbrev pub validate_present :
      FieldSpec → (Value → String → Option Error) → Value → RawObject → String → List Error
  validate_present f validate v o field_name =
      if f.repeated
      then validate_repeated validate v o field_name
      else list_of (validate v field_name)

  abbrev pub missing : FieldSpec → RawObject → String → List Error
  missing f o field_name =
      if f.required then schema_error o (missing_required field_name) ∷ [] else []

  -- `validateField`, with `validate` for `validateFieldValue`; a missing key has the value `nil`.
  abbrev pub validate_optional :
      FieldSpec → (Value → String → Option Error) → Value → RawObject → String → List Error
  validate_optional f validate null o field_name = elim f.default [
    | null ↦ missing f o field_name
    | other ↦ validate_present f validate other o field_name
  ]
  validate_optional f validate v o field_name = validate_present f validate v o field_name

  unfoldable mutual
    -- `validateFieldValue`; the object is that of the errors
    pub validate_field_value : FieldDefinition → RawObject → Value → String → Option Error
    validate_field_value (define f ps) o (obj m) field_name =
        if f.type_name == "object"
        then validate_properties ps o m field_name
        else validate_plain f (obj m) o field_name
    validate_field_value (define f ps) o v field_name =
        if f.type_name == "object"
        then type_error o field_name "object"
        else validate_plain f v o field_name

    -- the loop over `field.Properties`, in the order of the map's iteration: the first error
    pub validate_properties : Properties → RawObject → Fields → String → Option Error
    validate_properties no_more o m field_name = none
    validate_properties (property name f ps) o m field_name =
        let rest = validate_properties ps o m field_name in
        elim (first_of_errors (
          validate_optional (spec f) (validate_field_value f o) (value_at m name) o
            (child_name field_name name))) [ none ↦ rest | some e ↦ some e ]

  -- `validateField`
  unfoldable pub validate_field : FieldDefinition → Value → RawObject → String → List Error
  validate_field f v o field_name =
      validate_optional (spec f) (validate_field_value f o) v o field_name
