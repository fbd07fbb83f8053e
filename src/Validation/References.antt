-- ===== src/Validation/References.antt =====
-- internal/validation/references.go, and `collectReferenceValues` of field.go.
pub mod Laws
use mergeway_cli.Prelude.{
  String, Bool, true, false, not, Option, none, some, List, [], ◌∷◌, ◌++◌, ◌==◌, ◌||◌,
  if◌then◌else◌,
}
use mergeway_cli.Go.Map.{Map, get, keys}
use mergeway_cli.Go.Order.{sort_strings}
use mergeway_cli.Value.Defs.{Value, null, arr, Items, nil, cons}
use mergeway_cli.Value.Scalar.{FloatFormat, as_string}
use mergeway_cli.Config.Model.{FieldDefinition, spec, is_reference, TypeDefinition, Config}
use mergeway_cli.Config.IsA.{assignable_types}
use mergeway_cli.Config.References.{reference_label}
use mergeway_cli.Validation.Types.{
  Phase, references, references_missing, reference_ambiguous, Message, Error, RawObject,
  object_location, entries,
}
use mergeway_cli.Validation.Field.{value_at}
use mergeway_cli.Validation.Index.{Assignable, matches_of}

abbrev reference_error : RawObject → Message → Error
reference_error o message = record {
  phase = references;
  type_name = o.type_def.name;
  id = o.id;
  file = object_location o;
  message = message;
}

abbrev pub is_empty : {A : Type 0} → List A → Bool
is_empty [] = true
is_empty (x ∷ xs) = false

-- `resolveReferenceTypes`
unfoldable pub resolve_reference_types : Assignable → Config → List String → String → List String
resolve_reference_types index c [] ref_id = []
resolve_reference_types index c (t ∷ ts) ref_id =
    let rest = resolve_reference_types index c ts ref_id in
    if is_empty (assignable_types c t)
    then rest
    else if is_empty (matches_of index t ref_id)
    then rest
    else t ∷ rest

-- The body of the loop over the targets.
abbrev pub reference_errors :
    String → FieldDefinition → RawObject → String → List String → List Error
reference_errors field_name f o ref_id [] =
    reference_error o (references_missing field_name (reference_label f) ref_id) ∷ []
reference_errors field_name f o ref_id (t ∷ []) = []
reference_errors field_name f o ref_id (t ∷ u ∷ ts) =
    reference_error o (reference_ambiguous field_name ref_id (t ∷ u ∷ ts)) ∷ []

unfoldable pub check_targets :
    Assignable → Config → String → FieldDefinition → RawObject → List String → List Error
check_targets index c field_name f o [] = []
check_targets index c field_name f o (ref_id ∷ ids) =
    reference_errors field_name f o ref_id
      (resolve_reference_types index c (spec f).reference_types ref_id)
    ++ check_targets index c field_name f o ids

module _ (floats : FloatFormat) where
  abbrev scalars : Items → List String
  scalars nil = []
  scalars (cons v vs) = elim (as_string floats v) [ none ↦ scalars vs | some s ↦ s ∷ scalars vs ]

  abbrev repeated_scalars : Value → List String
  repeated_scalars (arr vs) = scalars vs
  repeated_scalars v = []

  -- `collectReferenceValues`; `nil` has no text either.
  unfoldable pub collect_reference_values : Value → Bool → List String
  collect_reference_values v true = repeated_scalars v
  collect_reference_values v false = elim (as_string floats v) [ none ↦ [] | some s ↦ s ∷ [] ]

  -- The loop over the fields of the type.
  unfoldable pub check_reference_fields :
      Assignable → Config → Map FieldDefinition → RawObject → List Error
  check_reference_fields index c [] o = []
  check_reference_fields index c ((name, f) ∷ fs) o =
      let rest = check_reference_fields index c fs o in
      if is_reference f
      then check_targets index c name f o
          (collect_reference_values (value_at (entries o.fields) name) (spec f).repeated)
        ++ rest
      else rest

  -- The loop over the objects of a type; one without an identifier is left out.
  unfoldable pub check_reference_objects :
      Assignable → Config → TypeDefinition → List RawObject → List Error
  check_reference_objects index c t [] = []
  check_reference_objects index c t (o ∷ os) =
      let rest = check_reference_objects index c t os in
      if o.id == "" then rest else check_reference_fields index c t.fields o ++ rest

  -- The loop over the sorted names of the types.
  unfoldable pub check_reference_types :
      Assignable → Config → Map (List RawObject) → List String → List Error
  check_reference_types index c all [] = []
  check_reference_types index c all (name ∷ names) = elim (get c.types name) [
    | none ↦ check_reference_types index c all names
    | some t ↦ elim (get all name) [
      | none ↦ check_reference_types index c all names
      | some os ↦ check_reference_objects index c t os ++ check_reference_types index c all names
    ]
  ]

  -- `validateReferences`
  unfoldable pub validate_references : Map (List RawObject) → Assignable → Config → List Error
  validate_references all index c = check_reference_types index c all (sort_strings (keys c.types))
