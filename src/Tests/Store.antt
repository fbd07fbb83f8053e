-- ===== src/Tests/Store.antt =====
-- The operations of the store at concrete inputs.
use mergeway_cli.Prelude.{
  ℕ, String, ◌≡◌, refl, ◌≢◌, ◌⊎◌, Bool, true, false, not, ◌||◌, Option, none, some, List, [], ◌∷◌,
  Result, ok, err, arith, eq_iff, ◌==◌,
}
use mergeway_cli.Go.Map.{Map, get, put}
use mergeway_cli.Go.Int.{pos, IsInt64}
use mergeway_cli.Value.Defs.{str, end, field}
use mergeway_cli.Value.Maps.{find}
use mergeway_cli.Value.Scalar.{get_string}
use mergeway_cli.Value.Normalize.{to_slice_map, not_array}
use mergeway_cli.Config.Model.{TypeDefinition}
use mergeway_cli.Store.Defs.{MaybeMap, Object, Env, require_type}
use mergeway_cli.Store.Paths.{sanitize_filename, relative_path_identifier}
use mergeway_cli.Store.Identifier.{to_int64}
use mergeway_cli.Store.Files.{load_document, load_file, payload, write_single, choose_create_target}
use mergeway_cli.Store.Load.{find_exact_object}
use mergeway_cli.Store.Operations.{
  create, create_at, update, delete_object, normalize_lookup_id, content_or_new,
}
use mergeway_cli.Store.Operations.Frame.{IsPlace, IsTarget, update_frame, create_frame}
use mergeway_cli.Store.Operations.Create.{Created}
use mergeway_cli.Store.Operations.Create.Writes.{Writes, create-Writes}
use mergeway_cli.Store.Operations.Delete.{Deleted, Removes, delete_object-Removes}
use mergeway_cli.Store.Operations.Update.{Updated, Replaces, update-Replaces}
use mergeway_cli.Tests.Disk.{memory, memory-IsLawful, a_field, a_type, include_of, config_of, named}

abbrev user_type : TypeDefinition
user_type = a_type "id" (include_of "data/*.yaml" ∷ []) (("id", a_field "id" none) ∷ [])

abbrev users : Env
users = memory (some (named "ada")) (config_of user_type)

abbrev one_file : Map String
one_file = ("/repo/data/ada.yaml", "doc") ∷ []

abbrev bob : Object
bob = record {
  type_name = "User";
  id = "bob";
  fields = some (named "bob");
  file = "/repo/data/bob.yaml";
  inline = false;
  read_only = false;
}

bob_created : (create users one_file "User" (some (named "bob"))).1 ≡ ok bob
unfolding create mergeway_cli.Store.Operations.new_identifier choose_create_target
    mergeway_cli.Store.Files.include_target sanitize_filename mergeway_cli.Store.Paths.replace_glob
    mergeway_cli.Store.Paths.has_glob create_at mergeway_cli.Store.Derived.clean_fields_for_type
    mergeway_cli.Store.Derived.remove_derived_field_keys mergeway_cli.Store.Derived.assign
    mergeway_cli.Store.Derived.fields_with_derived_values mergeway_cli.Store.Derived.derive_fields
    put require_type get find_exact_object mergeway_cli.Store.Load.find_among
    mergeway_cli.Store.Load.defs_of mergeway_cli.Store.Load.find_object_in_type
    mergeway_cli.Store.Load.find_hierarchy_object mergeway_cli.Config.IsA.assignable_types
    mergeway_cli.Config.IsA.descendant_types mergeway_cli.Config.IsA.descendants_among
    mergeway_cli.Go.Map.has mergeway_cli.Store.Load.resolve_include_matches
    mergeway_cli.Store.Load.match_includes mergeway_cli.Store.Load.match_paths
    mergeway_cli.Go.Order.sort_strings mergeway_cli.Prelude.member
    mergeway_cli.Store.Load.find_in_matches load_file load_document get_string
    mergeway_cli.Store.Load.find_in_content mergeway_cli.Go.FilePath.clean
    mergeway_cli.Go.FilePath.clean_parts mergeway_cli.Go.FilePath.clean_step
    mergeway_cli.Go.FilePath.dir mergeway_cli.Go.FilePath.ext mergeway_cli.Go.FilePath.is_abs
    mergeway_cli.Go.FilePath.join_path mergeway_cli.Go.FilePath.last_dot
    mergeway_cli.Go.FilePath.leads_out mergeway_cli.Go.FilePath.path_parts
    mergeway_cli.Go.FilePath.rel mergeway_cli.Go.FilePath.rel_parts mergeway_cli.Go.Int.format_int
    mergeway_cli.Go.Int.format_uint mergeway_cli.Go.Order.insert mergeway_cli.Go.Order.text_lt
    mergeway_cli.Go.Text.contains mergeway_cli.Go.Text.has_prefix mergeway_cli.Go.Text.is_space
    mergeway_cli.Go.Text.join mergeway_cli.Go.Text.map_chars mergeway_cli.Go.Text.replace_char
    mergeway_cli.Go.Text.split mergeway_cli.Go.Text.trim_left mergeway_cli.Go.Text.trim_right
    mergeway_cli.Go.Text.trim_space mergeway_cli.Store.Files.load_node
    mergeway_cli.Store.Files.load_nodes mergeway_cli.Store.Files.load_selected payload
    mergeway_cli.Store.Files.remove_file mergeway_cli.Store.Files.write_file write_single
    mergeway_cli.Store.Identifier.coerce_identifier_value
    mergeway_cli.Store.Identifier.derive_identifier
    mergeway_cli.Store.Identifier.extract_identifier_value mergeway_cli.Store.Identifier.to_float64
    to_int64 mergeway_cli.Store.Load.find_inline mergeway_cli.Store.Load.find_item
    mergeway_cli.Store.Operations.ensure_writable mergeway_cli.Store.Paths.detect_format
    mergeway_cli.Store.Paths.normalize_relative_path_identifier
    mergeway_cli.Store.Paths.path_within_root relative_path_identifier
    mergeway_cli.Value.Maps.clone_map mergeway_cli.Value.Maps.delete find
    mergeway_cli.Value.Maps.set mergeway_cli.Value.Normalize.normalize_object
    mergeway_cli.Value.Normalize.normalize_yaml mergeway_cli.Value.Normalize.objects_of to_slice_map
    mergeway_cli.Value.Scalar.as_string
bob_created = refl

create-Writes_example :
    (c : Created users one_file "User"
      (some (named "bob"))
      (create users one_file "User" (some (named "bob"))))
    × Writes users
        (create users one_file "User" (some (named "bob"))).0
        c.type_def
        c.target
        c.doc
        c.map
create-Writes_example =
    create-Writes users one_file "User" (some (named "bob"))
      (memory-IsLawful (some (named "ada")) (config_of user_type)) bob_created

create_frame_example :
    (users.read_file (create users one_file "User" (some (named "bob"))).0 "/repo/data/ada.yaml"
      ≡ users.read_file one_file "/repo/data/ada.yaml")
    ⊎ IsTarget users one_file "User" (some (named "bob")) "/repo/data/ada.yaml"
create_frame_example =
    create_frame users one_file "User" (some (named "bob")) "/repo/data/ada.yaml"
      (memory-IsLawful (some (named "ada")) (config_of user_type))

abbrev patch : MaybeMap
patch = some (field "name" (str "Ada") end)

abbrev ada : Object
ada = record {
  type_name = "User";
  id = "ada";
  fields = some (field "id" (str "ada") (field "name" (str "Ada") end));
  file = "/repo/data/ada.yaml";
  inline = false;
  read_only = false;
}

ada_updated : (update users one_file "User" "ada" patch true).1 ≡ ok ada
unfolding update mergeway_cli.Value.Merge.merge_maps normalize_lookup_id
    mergeway_cli.Store.Operations.writable_location mergeway_cli.Store.Operations.updated_fields
    mergeway_cli.Store.Derived.clean_fields_for_type
    mergeway_cli.Store.Derived.remove_derived_field_keys mergeway_cli.Store.Derived.assign
    mergeway_cli.Store.Derived.fields_with_derived_values mergeway_cli.Store.Derived.derive_fields
    put require_type get find_exact_object mergeway_cli.Store.Load.find_among
    mergeway_cli.Store.Load.defs_of mergeway_cli.Store.Load.find_object_in_type
    mergeway_cli.Store.Load.find_hierarchy_object mergeway_cli.Config.IsA.assignable_types
    mergeway_cli.Config.IsA.descendant_types mergeway_cli.Config.IsA.descendants_among
    mergeway_cli.Go.Map.has mergeway_cli.Store.Load.resolve_include_matches
    mergeway_cli.Store.Load.match_includes mergeway_cli.Store.Load.match_paths
    mergeway_cli.Go.Order.sort_strings mergeway_cli.Prelude.member
    mergeway_cli.Store.Load.find_in_matches load_file load_document get_string
    mergeway_cli.Store.Load.find_in_content mergeway_cli.Go.FilePath.clean
    mergeway_cli.Go.FilePath.clean_parts mergeway_cli.Go.FilePath.clean_step
    mergeway_cli.Go.FilePath.dir mergeway_cli.Go.FilePath.ext mergeway_cli.Go.FilePath.is_abs
    mergeway_cli.Go.FilePath.join_path mergeway_cli.Go.FilePath.last_dot
    mergeway_cli.Go.FilePath.leads_out mergeway_cli.Go.FilePath.path_parts
    mergeway_cli.Go.FilePath.rel mergeway_cli.Go.FilePath.rel_parts mergeway_cli.Go.Int.format_int
    mergeway_cli.Go.Int.format_uint mergeway_cli.Go.Order.insert mergeway_cli.Go.Order.text_lt
    mergeway_cli.Go.Text.contains mergeway_cli.Go.Text.has_prefix mergeway_cli.Go.Text.is_space
    mergeway_cli.Go.Text.join mergeway_cli.Go.Text.map_chars mergeway_cli.Go.Text.replace_char
    mergeway_cli.Go.Text.split mergeway_cli.Go.Text.trim_left mergeway_cli.Go.Text.trim_right
    mergeway_cli.Go.Text.trim_space mergeway_cli.Store.Files.load_node
    mergeway_cli.Store.Files.load_nodes mergeway_cli.Store.Files.load_selected payload
    mergeway_cli.Store.Files.remove_file mergeway_cli.Store.Files.write_file write_single
    mergeway_cli.Store.Identifier.coerce_identifier_value
    mergeway_cli.Store.Identifier.derive_identifier
    mergeway_cli.Store.Identifier.extract_identifier_value mergeway_cli.Store.Identifier.to_float64
    to_int64 mergeway_cli.Store.Load.find_inline mergeway_cli.Store.Load.find_item
    mergeway_cli.Store.Operations.ensure_writable mergeway_cli.Store.Paths.detect_format
    mergeway_cli.Store.Paths.normalize_relative_path_identifier
    mergeway_cli.Store.Paths.path_within_root relative_path_identifier
    mergeway_cli.Value.Maps.clone_map mergeway_cli.Value.Maps.delete find
    mergeway_cli.Value.Maps.set mergeway_cli.Value.Normalize.normalize_object
    mergeway_cli.Value.Normalize.normalize_yaml mergeway_cli.Value.Normalize.objects_of to_slice_map
    mergeway_cli.Value.Scalar.as_string
ada_updated = refl

update-Replaces_example :
    (u : Updated users one_file "User" "ada" patch true
      (update users one_file "User" "ada" patch true))
    × Replaces users (update users one_file "User" "ada" patch true).0 u.loc u.map
update-Replaces_example =
    update-Replaces users one_file "User" "ada" patch true
      (memory-IsLawful (some (named "ada")) (config_of user_type)) ada_updated

update_frame_example :
    (users.read_file (update users one_file "User" "ada" patch true).0 "/repo/data/bob.yaml"
      ≡ users.read_file one_file "/repo/data/bob.yaml")
    ⊎ IsPlace users one_file "User" "ada" "/repo/data/bob.yaml"
update_frame_example =
    update_frame users one_file "User" "ada" patch true "/repo/data/bob.yaml"
      (memory-IsLawful (some (named "ada")) (config_of user_type))

ada_deleted : (delete_object users one_file "User" "ada").1 ≡ ok tt
unfolding delete_object normalize_lookup_id mergeway_cli.Store.Operations.writable_location
    mergeway_cli.Store.Operations.delete_at mergeway_cli.Store.Operations.remove_item
    mergeway_cli.Go.Map.remove require_type get find_exact_object mergeway_cli.Store.Load.find_among
    mergeway_cli.Store.Load.defs_of mergeway_cli.Store.Load.find_object_in_type
    mergeway_cli.Store.Load.find_hierarchy_object mergeway_cli.Config.IsA.assignable_types
    mergeway_cli.Config.IsA.descendant_types mergeway_cli.Config.IsA.descendants_among
    mergeway_cli.Go.Map.has mergeway_cli.Store.Load.resolve_include_matches
    mergeway_cli.Store.Load.match_includes mergeway_cli.Store.Load.match_paths
    mergeway_cli.Go.Order.sort_strings mergeway_cli.Prelude.member
    mergeway_cli.Store.Load.find_in_matches load_file load_document get_string
    mergeway_cli.Store.Load.find_in_content mergeway_cli.Go.FilePath.clean
    mergeway_cli.Go.FilePath.clean_parts mergeway_cli.Go.FilePath.clean_step
    mergeway_cli.Go.FilePath.dir mergeway_cli.Go.FilePath.ext mergeway_cli.Go.FilePath.is_abs
    mergeway_cli.Go.FilePath.join_path mergeway_cli.Go.FilePath.last_dot
    mergeway_cli.Go.FilePath.leads_out mergeway_cli.Go.FilePath.path_parts
    mergeway_cli.Go.FilePath.rel mergeway_cli.Go.FilePath.rel_parts mergeway_cli.Go.Int.format_int
    mergeway_cli.Go.Int.format_uint mergeway_cli.Go.Order.insert mergeway_cli.Go.Order.text_lt
    mergeway_cli.Go.Text.contains mergeway_cli.Go.Text.has_prefix mergeway_cli.Go.Text.is_space
    mergeway_cli.Go.Text.join mergeway_cli.Go.Text.map_chars mergeway_cli.Go.Text.replace_char
    mergeway_cli.Go.Text.split mergeway_cli.Go.Text.trim_left mergeway_cli.Go.Text.trim_right
    mergeway_cli.Go.Text.trim_space mergeway_cli.Store.Files.load_node
    mergeway_cli.Store.Files.load_nodes mergeway_cli.Store.Files.load_selected payload
    mergeway_cli.Store.Files.remove_file mergeway_cli.Store.Files.write_file write_single
    mergeway_cli.Store.Identifier.coerce_identifier_value
    mergeway_cli.Store.Identifier.derive_identifier
    mergeway_cli.Store.Identifier.extract_identifier_value mergeway_cli.Store.Identifier.to_float64
    to_int64 mergeway_cli.Store.Load.find_inline mergeway_cli.Store.Load.find_item
    mergeway_cli.Store.Operations.ensure_writable mergeway_cli.Store.Paths.detect_format
    mergeway_cli.Store.Paths.normalize_relative_path_identifier
    mergeway_cli.Store.Paths.path_within_root relative_path_identifier
    mergeway_cli.Value.Maps.clone_map mergeway_cli.Value.Maps.delete find
    mergeway_cli.Value.Maps.set mergeway_cli.Value.Normalize.normalize_object
    mergeway_cli.Value.Normalize.normalize_yaml mergeway_cli.Value.Normalize.objects_of to_slice_map
    mergeway_cli.Value.Scalar.as_string
ada_deleted = refl

delete_object-Removes_example :
    (d : Deleted users one_file "User" "ada" (delete_object users one_file "User" "ada")) × Removes
      users
      (delete_object users one_file "User" "ada").0
      d.loc
delete_object-Removes_example =
    delete_object-Removes users one_file "User" "ada"
      (memory-IsLawful (some (named "ada")) (config_of user_type)) ada_deleted
