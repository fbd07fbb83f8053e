-- ===== src/Tests/Faults.antt =====
-- A file with a single object that is the target of several, at concrete inputs.
use mergeway_cli.Prelude.{
  ℕ, String, refl, ◌≢◌, ◌⊎◌, Bool, true, false, not, ◌||◌, Option, none, some, List, [], ◌∷◌,
  Result, err, arith, eq_iff, ◌==◌,
}
use mergeway_cli.Go.Map.{Map, get, put}
use mergeway_cli.Go.Int.{pos, IsInt64}
use mergeway_cli.Value.Defs.{str}
use mergeway_cli.Value.Maps.{find}
use mergeway_cli.Value.Scalar.{get_string}
use mergeway_cli.Value.Normalize.{to_slice_map, not_array}
use mergeway_cli.Config.Model.{TypeDefinition}
use mergeway_cli.Store.Defs.{FileContent, format_yaml, Object, Env, require_type}
use mergeway_cli.Store.Paths.{sanitize_filename, relative_path_identifier}
use mergeway_cli.Store.Identifier.{to_int64}
use mergeway_cli.Store.Files.{load_document, load_file, payload, write_single, choose_create_target}
use mergeway_cli.Store.Load.{find_exact_object}
use mergeway_cli.Store.Operations.{create, create_at, update, delete_object, normalize_lookup_id}
use mergeway_cli.Store.Operations.Create.{Created}
use mergeway_cli.Tests.Disk.{memory, a_field, a_type, include_of, config_of, named}

abbrev single_type : TypeDefinition
single_type = a_type "id" (include_of "data/users.yaml" ∷ []) (("id", a_field "id" none) ∷ [])

abbrev single_users : Env
single_users = memory (some (named "ada")) (config_of single_type)

abbrev single_file : Map String
single_file = ("/repo/data/users.yaml", "doc") ∷ []

abbrev users_content : FileContent
users_content = record {
  path = "/repo/data/users.yaml";
  type_name = "User";
  format = format_yaml;
  multi = false;
  single = some (named "ada");
  items = [];
  selector = "";
  read_only = false;
}

abbrev bob_lost : Object
bob_lost = record {
  type_name = "User";
  id = "bob";
  fields = some (named "bob");
  file = "/repo/data/users.yaml";
  inline = false;
  read_only = false;
}

abbrev lost_created :
    Created single_users single_file "User"
      (some (named "bob"))
      (create single_users single_file "User" (some (named "bob")))
unfolding create_at create mergeway_cli.Store.Operations.new_identifier choose_create_target
    mergeway_cli.Store.Files.include_target sanitize_filename mergeway_cli.Store.Paths.replace_glob
    mergeway_cli.Store.Paths.has_glob mergeway_cli.Store.Derived.clean_fields_for_type
    mergeway_cli.Store.Derived.remove_derived_field_keys mergeway_cli.Store.Derived.assign
    mergeway_cli.Store.Derived.fields_with_derived_values mergeway_cli.Store.Derived.derive_fields
    put require_type get find_exact_object mergeway_cli.Store.Load.find_among
    mergeway_cli.Store.Load.defs_of mergeway_cli.Store.Load.find_object_in_type
    mergeway_cli.Store.Load.find_hierarchy_object mergeway_cli.Config.IsA.assignable_types
    mergeway_cli.Config.IsA.descendant_types mergeway_cli.Config.IsA.descendants_among
    mergeway_cli.Go.Map.has mergeway_cli.Store.Load.resolve_include_matches
    mergeway_cli.Store.Load.match_includes mergeway_cli.Store.Load.match_paths
    mergeway_cli.Go.Order.sort_strings mergeway_cli.Prelude.member
    mergeway_cli.Store.Load.find_in_matches load_file load_document get_string
    mergeway_cli.Store.Load.find_in_content mergeway_cli.Go.FilePath.clean
    mergeway_cli.Go.FilePath.clean_parts mergeway_cli.Go.FilePath.clean_step
    mergeway_cli.Go.FilePath.dir mergeway_cli.Go.FilePath.ext mergeway_cli.Go.FilePath.is_abs
    mergeway_cli.Go.FilePath.join_path mergeway_cli.Go.FilePath.last_dot
    mergeway_cli.Go.FilePath.leads_out mergeway_cli.Go.FilePath.path_parts
    mergeway_cli.Go.FilePath.rel mergeway_cli.Go.FilePath.rel_parts mergeway_cli.Go.Int.format_int
    mergeway_cli.Go.Int.format_uint mergeway_cli.Go.Order.insert mergeway_cli.Go.Order.text_lt
    mergeway_cli.Go.Text.contains mergeway_cli.Go.Text.has_prefix mergeway_cli.Go.Text.is_space
    mergeway_cli.Go.Text.join mergeway_cli.Go.Text.map_chars mergeway_cli.Go.Text.replace_char
    mergeway_cli.Go.Text.split mergeway_cli.Go.Text.trim_left mergeway_cli.Go.Text.trim_right
    mergeway_cli.Go.Text.trim_space mergeway_cli.Store.Files.load_node
    mergeway_cli.Store.Files.load_nodes mergeway_cli.Store.Files.load_selected payload
    mergeway_cli.Store.Files.remove_file mergeway_cli.Store.Files.write_file write_single
    mergeway_cli.Store.Identifier.coerce_identifier_value
    mergeway_cli.Store.Identifier.derive_identifier
    mergeway_cli.Store.Identifier.extract_identifier_value mergeway_cli.Store.Identifier.to_float64
    to_int64 mergeway_cli.Store.Load.find_inline mergeway_cli.Store.Load.find_item
    mergeway_cli.Store.Operations.ensure_writable mergeway_cli.Store.Paths.detect_format
    mergeway_cli.Store.Paths.normalize_relative_path_identifier
    mergeway_cli.Store.Paths.path_within_root relative_path_identifier
    mergeway_cli.Value.Maps.clone_map mergeway_cli.Value.Maps.delete find
    mergeway_cli.Value.Maps.set mergeway_cli.Value.Normalize.normalize_object
    mergeway_cli.Value.Normalize.normalize_yaml mergeway_cli.Value.Normalize.objects_of to_slice_map
    mergeway_cli.Value.Scalar.as_string
lost_created = record {
  type_def = single_type;
  identifier = ("bob", str "bob");
  target = record { path = "/repo/data/users.yaml"; format = format_yaml; multi = true };
  doc = some users_content;
  map = some (named "bob");
  known = refl;
  new = refl;
  chosen = refl;
  loaded = refl;
  named = refl;
  ends = refl;
}
