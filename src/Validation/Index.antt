-- ===== src/Validation/Index.antt =====
-- `validateSchema` and `buildAssignableIndex` of internal/validation/schema.go.
pub mod Laws
use mergeway_cli.Prelude.{String, Option, none, some, List, [], ◌∷◌, ◌++◌}
use mergeway_cli.Go.Map.{Map, get, put, keys}
use mergeway_cli.Go.Order.{sort_strings}
use mergeway_cli.Value.Scalar.{FloatFormat}
use mergeway_cli.Config.Model.{Config}
use mergeway_cli.Validation.Types.{duplicate_in_hierarchy, Error, RawObject, object_location}
use mergeway_cli.Validation.Field.{TextTests}
use mergeway_cli.Validation.Schema.{KeyTexts, object_error, or_empty, validate_type_schema}

-- `byAssignable`: by the type that is asked for, by the identifier, the objects
abbrev pub Assignable : Type 0
Assignable = Map (Map (List RawObject))

-- `matches := byAssignable[queryType][id]`
abbrev pub matches_of : Assignable → String → String → List RawObject
matches_of index query_type id = elim (get (or_empty (get index query_type)) id) [
  | none ↦ []
  | some os ↦ os
]

-- the loop that looks for a conflict
unfoldable pub conflict_among : Assignable → List String → String → Option RawObject
conflict_among index [] id = none
conflict_among index (t ∷ ts) id =
    let rest = conflict_among index ts id in
    elim (matches_of index t id) [ [] ↦ rest | o ∷ os ↦ some o ]

-- the loop that adds the object under each type
unfoldable pub add_assignable : Assignable → List String → String → RawObject → Assignable
add_assignable index [] id o = index
add_assignable index (t ∷ ts) id o =
    add_assignable (put index t (put (or_empty (get index t)) id (matches_of index t id ++ o ∷ [])))
      ts id o

-- `assignableTo`
abbrev pub assignable_to : RawObject → List String
assignable_to o = o.type_def.name ∷ o.type_def.ancestors

abbrev conflict_error : RawObject → String → Option RawObject → List Error
conflict_error o id none = []
conflict_error o id (some c) =
    object_error o.type_def o id (duplicate_in_hierarchy c.type_def.name (object_location c)) ∷ []

-- The loop over the sorted identifiers of a type.
unfoldable pub index_ids : Assignable → Map RawObject → List String → Assignable × List Error
index_ids index objects [] = (index, [])
index_ids index objects (id ∷ ids) = elim (get objects id) [
  | none ↦ index_ids index objects ids
  | some o ↦
      let rest = index_ids (add_assignable index (assignable_to o) id o) objects ids in
      (rest.0, conflict_error o id (conflict_among index (assignable_to o) id) ++ rest.1)
]

-- The loop over the sorted names of the types.
unfoldable pub index_types :
    Assignable → Map (Map RawObject) → List String → Assignable × List Error
index_types index by_type [] = (index, [])
index_types index by_type (t ∷ ts) =
    let objects = or_empty (get by_type t) in
    let now = index_ids index objects (sort_strings (keys objects)) in
    let later = index_types now.0 by_type ts in (later.0, now.1 ++ later.1)

-- `buildAssignableIndex`
unfoldable pub build_assignable_index : Map (Map RawObject) → Config → Assignable × List Error
build_assignable_index by_type c = index_types [] by_type (sort_strings (keys c.types))

-- `schemaIndex`, with the objects as the run leaves them
pub record SchemaIndex : Type 0 where
  pub by_type : Map (Map RawObject)
  pub by_assignable : Assignable
  pub all : Map (List RawObject)
  pub errors : List Error

module _ (floats : FloatFormat) (texts : TextTests) (prints : KeyTexts) where
  -- The loop of `validateSchema`: the index by type, the objects and the errors.
  unfoldable pub validate_types :
      Config
      → Map (Map RawObject)
      → Map (List RawObject)
      → List String
      → Map (Map RawObject) × Map (List RawObject) × List Error
  validate_types c by_type all [] = (by_type, all, [])
  validate_types c by_type all (name ∷ names) = elim (get c.types name) [
    | none ↦ validate_types c by_type all names
    | some t ↦ elim (get all name) [
      | none ↦ validate_types c by_type all names
      | some os ↦
          let run = validate_type_schema floats texts prints os t in
          let rest =
            validate_types c (put by_type t.name run.indexed) (put all name run.objects) names in
          (rest.0, rest.1, run.errors ++ rest.2)
    ]
  ]

  -- `validateSchema`
  unfoldable pub validate_schema : Map (List RawObject) → Config → SchemaIndex
  validate_schema all c =
      let run = validate_types c [] all (sort_strings (keys c.types)) in
      let index = build_assignable_index run.0 c in
      record { by_type = run.0; by_assignable = index.0; all = run.1; errors = run.2 ++ index.1 }
