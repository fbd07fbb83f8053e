-- ===== src/Config/Inherit.antt =====
-- What a type takes from its parent: `normalizeIdentifierDefinition`, `mergeInheritedFields`,
-- `cloneFieldMap` and `cloneFieldDefinition` of internal/config/normalize.go.
pub mod Laws
use Prim.Native.String
use mergeway_cli.Prelude.{
  ℕ, String, Bool, true, false, Option, none, some, List, [], ◌∷◌, ◌++◌, ◌==◌, not, ◌&&◌, ◌||◌,
  if◌then◌else◌, Result, ok, err,
}
use mergeway_cli.Go.Map.{Map, get, put, has}
use mergeway_cli.Value.Maps.{clone_value}
use mergeway_cli.Config.Model.{
  IdentifierDefinition, FieldSourceDefinition, FieldSpec, FieldDefinition, define, Properties,
  no_more, property, TypeDefinition,
}
use mergeway_cli.Config.Raw.{RawType}
use mergeway_cli.Config.Names.{is_valid_identifier_field}

pub data InheritError : Type 0 where
  missing_identifier : String → String → InheritError
  invalid_identifier : String → String → InheritError
  identifier_overridden : String → String → InheritError
  field_redefined : String → String → InheritError

-- the identifier that the type itself gives
abbrev pub own_identifier : RawType → IdentifierDefinition
own_identifier raw = record {
  field = raw.spec.identifier.field;
  generated = raw.spec.identifier.generated;
  pattern = raw.spec.identifier.pattern;
}

abbrev same_flag : Bool → Bool → Bool
same_flag true b = b
same_flag false b = not b

-- `==` on identifier definitions
abbrev pub same_identifier : IdentifierDefinition → IdentifierDefinition → Bool
same_identifier a b =
    a.field == b.field && same_flag a.generated b.generated && a.pattern == b.pattern

-- `normalizeIdentifierDefinition`
unfoldable pub normalize_identifier_definition :
    RawType → Option TypeDefinition → Result InheritError IdentifierDefinition
normalize_identifier_definition raw none =
    if not raw.spec.identifier.set || raw.spec.identifier.field == ""
    then err (missing_identifier raw.name raw.source)
    else if not (is_valid_identifier_field raw.spec.identifier.field)
    then err (invalid_identifier raw.name raw.spec.identifier.field)
    else ok (own_identifier raw)
normalize_identifier_definition raw (some parent) =
    if not raw.spec.identifier.set
    then ok parent.identifier
    else if not (is_valid_identifier_field raw.spec.identifier.field)
    then err (invalid_identifier raw.name raw.spec.identifier.field)
    else if not (same_identifier (own_identifier raw) parent.identifier)
    then err (identifier_overridden raw.name parent.name)
    else ok parent.identifier

abbrev clone_source : Option FieldSourceDefinition → Option FieldSourceDefinition
clone_source none = none
clone_source (some s) =
    some (record {
      path = s.path;
      path_segment = s.path_segment;
      path_segment_rev = s.path_segment_rev;
    })

abbrev clone_spec : FieldSpec → FieldSpec
clone_spec f = record f { default = clone_value f.default; source = clone_source f.source }

-- `cloneFieldDefinition`, and `cloneFieldMap` on the properties of a field
unfoldable mutual
  pub clone_field_definition : FieldDefinition → FieldDefinition
  clone_field_definition (define f ps) = define (clone_spec f) (clone_properties ps)

  pub clone_properties : Properties → Properties
  clone_properties no_more = no_more
  clone_properties (property name f ps) =
      property name (clone_field_definition f) (clone_properties ps)

-- `cloneFieldMap` on the fields of a type
unfoldable pub clone_field_map : Map FieldDefinition → Map FieldDefinition
clone_field_map [] = []
clone_field_map ((name, f) ∷ fs) = (name, clone_field_definition f) ∷ clone_field_map fs

-- The loop of `mergeInheritedFields`; the local fields have every name of the local order.
unfoldable pub merge_local :
    String
    → Map FieldDefinition
    → Map FieldDefinition
    → List String
    → List String
    → Result InheritError (Map FieldDefinition × List String)
merge_local type_name fields merged order [] = ok (merged, order)
merge_local type_name fields merged order (name ∷ names) = elim (has merged name) [
  | true ↦ err (field_redefined type_name name)
  | false ↦ elim (get fields name) [
    | none ↦ merge_local type_name fields merged (order ++ name ∷ []) names
    | some f ↦
        merge_local type_name fields (put merged name (clone_field_definition f))
          (order ++ name ∷ []) names
  ]
]

-- `mergeInheritedFields`
unfoldable pub merge_inherited_fields :
    String
    → Option TypeDefinition
    → Map FieldDefinition
    → List String
    → Result InheritError (Map FieldDefinition × List String)
merge_inherited_fields type_name none fields order = ok (fields, order)
merge_inherited_fields type_name (some parent) fields order =
    merge_local type_name fields (clone_field_map parent.fields) parent.field_order order
