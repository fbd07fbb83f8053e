-- ===== src/Store/Identifier.antt =====
-- internal/data/identifier.go: the identifier of an object, and its value in a number field.
pub mod Bounds
use Prim.Native.String
use mergeway_cli.Prelude.{
  ℕ, ◌/◌, ◌%◌, ◌^◌, String, Bool, true, false, not, ◌&&◌, ◌||◌, Option, none, some, Result, ok, err,
  ◌>>=◌, ◌==◌, ltb, eqb, if◌then◌else◌,
}
use mergeway_cli.Go.Int.{ℤ, pos, max_int64}
use mergeway_cli.Go.Parse.{parse_int}
use mergeway_cli.Go.Map.{get}
use mergeway_cli.Value.Defs.{
  Value, null, bool, int, uint, float, number, stringer, str, arr, obj, any_map, Fields, Width,
  native, w8, w16, w32, w64, FloatWidth, f32, f64,
}
use mergeway_cli.Value.Maps.{find}
use mergeway_cli.Value.Scalar.{as_string}
use mergeway_cli.Config.Model.{TypeDefinition, FieldDefinition, spec, is_path}
use mergeway_cli.Store.Defs.{
  MaybeMap, Env, StoreError, identifier_not_configured, missing_field, not_text, not_integer,
  not_number,
}
use mergeway_cli.Store.Paths.{normalize_relative_path_identifier, relative_path_identifier}

-- `math.IsNaN(v) || math.IsInf(v, 0)`: the exponent is all ones.
abbrev pub is_finite : ℕ → Bool
is_finite bits = not (eqb (bits / 2 ^ 52 % 2048) 2047)

abbrev finite : Option ℕ → Option ℕ
finite none = none
finite (some bits) = if is_finite bits then some bits else none

module _ (w : Env) where
  abbrev pub integral : Option ℕ → Option ℤ
  integral none = none
  integral (some bits) = if w.is_integral bits then some (w.int64_of_float bits) else none

  abbrev pub or_integral : Option ℤ → Option ℕ → Option ℤ
  or_integral (some i) f = some i
  or_integral none f = integral f

  -- a `uint` or `uint64`, which an `int64` may not hold; the smaller ones it holds
  abbrev pub checked_uint : ℕ → Option ℤ
  checked_uint n = if ltb max_int64 n then none else some (pos n)

  -- `toInt64`
  unfoldable pub to_int64 : Value → Option ℤ
  to_int64 (int k i) = some i
  to_int64 (uint native n) = checked_uint n
  to_int64 (uint w64 n) = checked_uint n
  to_int64 (uint k n) = some (pos n)
  to_int64 (float k bits) = integral (some bits)
  to_int64 (number s) = or_integral (parse_int s) (w.parse_float s)
  to_int64 (str s) = if s == "" then none else parse_int s
  to_int64 v = none

  -- `toFloat64`
  unfoldable pub to_float64 : Value → Option ℕ
  to_float64 (float f32 bits) = some bits
  to_float64 (float f64 bits) = finite (some bits)
  to_float64 (int k i) = some (w.float_of_int i)
  to_float64 (uint k n) = some (w.float_of_int (pos n))
  to_float64 (number s) = finite (w.parse_float s)
  to_float64 (str s) = if s == "" then none else finite (w.parse_float s)
  to_float64 v = none

  -- `coerceIdentifierValue`
  unfoldable pub coerce_identifier_value : String → String → Value → Result StoreError Value
  coerce_identifier_value field_type field_name raw =
      if field_type == "integer"
      then elim (to_int64 raw) [ none ↦ err (not_integer field_name) | some i ↦ ok (int w64 i) ]
      else if field_type == "number"
      then elim (to_float64 raw) [ none ↦ err (not_number field_name) | some f ↦ ok (float f64 f) ]
      else ok raw

  -- the value under the identifier field: the text, and what `AsString` read it from
  abbrev pub identifier_text : MaybeMap → String → Result StoreError (String × Value)
  identifier_text none name = err (missing_field name)
  identifier_text (some m) name = elim (find m name) [
    | none ↦ err (missing_field name)
    | some raw ↦ elim (as_string w.floats raw) [ none ↦ err (not_text name) | some s ↦ ok (s, raw) ]
  ]

  -- the value in the type of the identifier's field
  abbrev pub typed_identifier :
      Option FieldDefinition → String → String → Value → Result StoreError (String × Value)
  typed_identifier none name s raw = ok (s, raw)
  typed_identifier (some f) name s raw =
      if (spec f).type_name == "string" || (spec f).type_name == "enum"
      then ok (s, str s)
      else coerce_identifier_value (spec f).type_name name raw >>= λ v. ok (s, v)

  -- `extractIdentifierValue`
  unfoldable pub extract_identifier_value :
      TypeDefinition → MaybeMap → Result StoreError (String × Value)
  extract_identifier_value t fields =
      if t.identifier.field == ""
      then err identifier_not_configured
      else if is_path t.identifier
      then (identifier_text fields t.identifier.field >>= λ p.
          normalize_relative_path_identifier false p.0 >>= λ s. ok (s, str s))
      else (identifier_text fields t.identifier.field >>= λ p.
          typed_identifier (get t.fields t.identifier.field) t.identifier.field p.0 p.1)

  -- `deriveIdentifierValue`, without the value that its callers drop
  unfoldable pub derive_identifier : TypeDefinition → MaybeMap → String → Result StoreError String
  derive_identifier t fields source_path =
      if is_path t.identifier
      then relative_path_identifier true w.root source_path
      else extract_identifier_value t fields >>= λ p. ok p.0
