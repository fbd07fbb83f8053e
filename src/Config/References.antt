-- ===== src/Config/References.antt =====
-- `parseReferenceTypes` of internal/config/normalize.go and `ReferenceLabel` of
-- internal/config/model.go: a field's type names entity types, one or several with `|` between.
pub mod RoundTrip
pub mod Sound
use mergeway_cli.Prelude.{
  ℕ, String, Bool, true, false, List, [], ◌∷◌, ◌++◌, ◌==◌, ◌||◌, not, if◌then◌else◌, Result, ok,
  err, member,
}
use mergeway_cli.Go.Text.{trim_space, split, join, contains}
use mergeway_cli.Config.Model.{FieldDefinition, spec}
use mergeway_cli.Config.Names.{is_valid_type_name}

pub data ReferenceError : Type 0 where
  invalid_type_name : String → ReferenceError
  invalid_union : String → ReferenceError
  union_of_primitive : String → ReferenceError
  duplicate_member : String → String → ReferenceError

-- `primitiveTypes`
abbrev pub primitive_types : List String
primitive_types = "string" ∷ "integer" ∷ "number" ∷ "boolean" ∷ "enum" ∷ "object" ∷ []

-- `_, ok := primitiveTypes[name]`
unfoldable pub is_primitive : String → Bool
is_primitive name = member primitive_types name

-- The loop over the parts of a union. `seen` holds the members of `ref_types`.
unfoldable pub union_members :
    String → List String → List String → Result ReferenceError (List String)
union_members type_name ref_types [] = ok ref_types
union_members type_name ref_types (raw_part ∷ parts) =
    let part = trim_space raw_part in
    let rest = union_members type_name (ref_types ++ part ∷ []) parts in
    if part == ""
    then err (invalid_union type_name)
    else if is_primitive part
    then err (union_of_primitive type_name)
    else if not (is_valid_type_name part)
    then err (invalid_type_name part)
    else if member ref_types part
    then err (duplicate_member type_name part)
    else rest

-- What `parseReferenceTypes` does with the trimmed text. A text that holds `|` has at least two
-- parts, so that the test of their number never fails.
unfoldable pub parse_trimmed : String → Result ReferenceError (List String)
parse_trimmed type_name =
    if type_name == ""
    then err (invalid_type_name type_name)
    else if is_primitive type_name
    then ok []
    else if contains type_name b'|'
    then union_members type_name [] (split b'|' type_name)
    else if not (is_valid_type_name type_name)
    then err (invalid_type_name type_name)
    else ok (type_name ∷ [])

-- `parseReferenceTypes`
unfoldable pub parse_reference_types : String → Result ReferenceError (List String)
parse_reference_types raw = parse_trimmed (trim_space raw)

-- `ReferenceLabel`
abbrev label : String → List String → String
label type_name [] = type_name
label type_name (x ∷ xs) = join (x ∷ xs) " | "

unfoldable pub reference_label : FieldDefinition → String
reference_label f = label (spec f).type_name (spec f).reference_types
