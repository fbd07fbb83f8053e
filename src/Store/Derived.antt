-- ===== src/Store/Derived.antt =====
-- internal/data/derived_fields.go, and `removeSystemKeys` of util.go.
use mergeway_cli.Prelude.{
  String, true, none, some, Result, ok, err, ◌>>=◌, [], ◌∷◌, ◌==◌, if◌then◌else◌,
}
use mergeway_cli.Go.Map.{Map}
use mergeway_cli.Value.Defs.{Value, str}
use mergeway_cli.Value.Maps.{set, delete}
use mergeway_cli.Config.Model.{
  TypeDefinition, FieldDefinition, spec, is_path_derived, path_identifier_field,
}
use mergeway_cli.Config.PathSource.{PathSourceError, derive_path_source_value}
use mergeway_cli.Store.Defs.{MaybeMap, clone_maybe, Env, StoreError, derive_error, panics}
use mergeway_cli.Store.Paths.{relative_path_identifier}

-- `m[k] = v`, which panics on a `nil` map
unfoldable pub assign : MaybeMap → String → Value → Result StoreError MaybeMap
assign none k v = err panics
assign (some m) k v = ok (some (set m k v))

-- `delete(m, k)`, which does nothing on a `nil` map
abbrev pub delete_key : MaybeMap → String → MaybeMap
delete_key none k = none
delete_key (some m) k = some (delete m k)

abbrev pub derived_text : String → Result PathSourceError String → Result StoreError String
derived_text name (err e) = err (derive_error name e)
derived_text name (ok s) = ok s

-- The loop of `fieldsWithDerivedValues` over the fields of the type.
unfoldable pub derive_fields : Map FieldDefinition → String → MaybeMap → Result StoreError MaybeMap
derive_fields [] path_id enriched = ok enriched
derive_fields ((name, f) ∷ fs) path_id enriched =
    let skip = derive_fields fs path_id enriched in
    if is_path_derived (spec f).source
    then (derived_text name (derive_path_source_value (spec f).source path_id) >>= λ value.
        assign enriched name (str value) >>= λ more. derive_fields fs path_id more)
    else skip

-- `fieldsWithDerivedValues`
unfoldable pub fields_with_derived_values :
    Env → TypeDefinition → String → MaybeMap → Result StoreError MaybeMap
fields_with_derived_values w t source_path fields =
    if source_path == ""
    then ok (clone_maybe fields)
    else (relative_path_identifier true w.root source_path >>= λ path_id.
        derive_fields t.fields path_id (clone_maybe fields))

-- The loop of `removeDerivedFieldKeys`.
unfoldable pub remove_derived_field_keys : Map FieldDefinition → MaybeMap → MaybeMap
remove_derived_field_keys [] m = m
remove_derived_field_keys ((name, f) ∷ fs) m =
    remove_derived_field_keys fs (if is_path_derived (spec f).source then delete_key m name else m)

-- `removeSystemKeys` and `removeTypeKeys`
abbrev pub remove_system_keys : MaybeMap → MaybeMap
remove_system_keys m = delete_key (delete_key (delete_key m "type") "Type") path_identifier_field

-- `cleanFieldsForType`
unfoldable pub clean_fields_for_type : TypeDefinition → MaybeMap → MaybeMap
clean_fields_for_type t fields =
    remove_derived_field_keys t.fields (remove_system_keys (clone_maybe fields))
