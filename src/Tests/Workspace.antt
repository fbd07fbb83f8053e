-- ===== src/Tests/Workspace.antt =====
-- The workspace and its runtime at concrete inputs.
use mergeway_cli.Prelude.{
  ℕ, String, ◌≡◌, refl, Bool, true, false, Option, none, some, List, [], ◌∷◌, Result, ok, err,
  arith, In, here, there, Distinct,
}
use mergeway_cli.Go.Int.{pos}
use mergeway_cli.Go.Map.{Map, get, put, has, keys}
use mergeway_cli.Config.Model.{TypeDefinition}
use mergeway_cli.Store.Defs.{Object, Env, require_type}
use mergeway_cli.Store.LoadAll.{load_all}
use mergeway_cli.Store.LoadAll.Laws.{load_all-same_type}
use mergeway_cli.Store.Operations.{load_objects}
use mergeway_cli.Workspace.Index.{Workspace, load_workspace, objects, find_indexed}
use mergeway_cli.Workspace.Index.Laws.{with_id, load_workspace-find}
use mergeway_cli.Workspace.Runtime.{
  OpenDocument, RootIndex, Loader, Runtime, edited, new_runtime, did_open,
}
use mergeway_cli.Workspace.Runtime.Steps.{System, reading, Steps, done, next, opens}
use mergeway_cli.Workspace.Runtime.View.{View, ViewSteps, initial_view}
use mergeway_cli.Workspace.Runtime.Refine.{Views, run-Views}
use mergeway_cli.Workspace.Runtime.Reload.{names, Reflects, flush-Reflects, stale-Reflects}
use mergeway_cli.Tests.Disk.{memory, a_field, a_type, include_of, config_of, named}

abbrev user_type : TypeDefinition
user_type = a_type "id" (include_of "data/*.yaml" ∷ []) (("id", a_field "id" none) ∷ [])

abbrev users : Env
users = memory (some (named "ada")) (config_of user_type)

abbrev one_file : Map String
one_file = ("/repo/data/ada.yaml", "doc") ∷ []

abbrev ada : Object
ada = record {
  type_name = "User";
  id = "ada";
  fields = some (named "ada");
  file = "/repo/data/ada.yaml";
  inline = false;
  read_only = false;
}

abbrev one_user : Workspace
one_user = record {
  root = "/repo";
  config_path = "/repo/mergeway.yaml";
  config = config_of user_type;
  objects_by_type = ("User", ada ∷ []) ∷ [];
  index = ("User", ("ada", ada ∷ []) ∷ []) ∷ [];
}

one_user_loaded : load_workspace users one_file "/repo/mergeway.yaml" ≡ ok one_user
unfolding load_workspace mergeway_cli.Workspace.Index.load_named load_objects load_all
    mergeway_cli.Store.LoadAll.load_types mergeway_cli.Store.LoadAll.add_loaded
    mergeway_cli.Store.LoadAll.load_exact_all mergeway_cli.Store.LoadAll.load_matches
    mergeway_cli.Store.LoadAll.load_content mergeway_cli.Store.LoadAll.load_items
    mergeway_cli.Store.LoadAll.load_object mergeway_cli.Store.LoadAll.load_inline
    mergeway_cli.Workspace.Index.index_objects put
    mergeway_cli.Store.Derived.fields_with_derived_values mergeway_cli.Store.Derived.derive_fields
    require_type get mergeway_cli.Store.Load.find_exact_object mergeway_cli.Store.Load.find_among
    mergeway_cli.Store.Load.defs_of mergeway_cli.Store.Load.find_object_in_type
    mergeway_cli.Store.Load.find_hierarchy_object mergeway_cli.Config.IsA.assignable_types
    mergeway_cli.Config.IsA.descendant_types mergeway_cli.Config.IsA.descendants_among
    mergeway_cli.Go.Map.has mergeway_cli.Store.Load.resolve_include_matches
    mergeway_cli.Store.Load.match_includes mergeway_cli.Store.Load.match_paths
    mergeway_cli.Go.Order.sort_strings mergeway_cli.Prelude.member
    mergeway_cli.Store.Load.find_in_matches mergeway_cli.Store.Files.load_file
    mergeway_cli.Store.Files.load_document mergeway_cli.Value.Scalar.get_string
    mergeway_cli.Store.Load.find_in_content mergeway_cli.Go.FilePath.clean
    mergeway_cli.Go.FilePath.clean_parts mergeway_cli.Go.FilePath.clean_step
    mergeway_cli.Go.FilePath.dir mergeway_cli.Go.FilePath.ext mergeway_cli.Go.FilePath.is_abs
    mergeway_cli.Go.FilePath.join_path mergeway_cli.Go.FilePath.last_dot
    mergeway_cli.Go.FilePath.leads_out mergeway_cli.Go.FilePath.path_parts
    mergeway_cli.Go.FilePath.rel mergeway_cli.Go.FilePath.rel_parts mergeway_cli.Go.Int.format_int
    mergeway_cli.Go.Int.format_uint mergeway_cli.Go.Order.insert mergeway_cli.Go.Order.text_lt
    mergeway_cli.Go.Text.contains mergeway_cli.Go.Text.has_prefix mergeway_cli.Go.Text.is_space
    mergeway_cli.Go.Text.join mergeway_cli.Go.Text.map_chars mergeway_cli.Go.Text.replace_char
    mergeway_cli.Go.Text.split mergeway_cli.Go.Text.trim_left mergeway_cli.Go.Text.trim_right
    mergeway_cli.Go.Text.trim_space mergeway_cli.Store.Files.load_node
    mergeway_cli.Store.Files.load_nodes mergeway_cli.Store.Files.load_selected
    mergeway_cli.Store.Files.payload mergeway_cli.Store.Files.remove_file
    mergeway_cli.Store.Files.write_file mergeway_cli.Store.Files.write_single
    mergeway_cli.Store.Identifier.coerce_identifier_value
    mergeway_cli.Store.Identifier.derive_identifier
    mergeway_cli.Store.Identifier.extract_identifier_value mergeway_cli.Store.Identifier.to_float64
    mergeway_cli.Store.Identifier.to_int64 mergeway_cli.Store.Load.find_inline
    mergeway_cli.Store.Load.find_item mergeway_cli.Store.Operations.ensure_writable
    mergeway_cli.Store.Paths.detect_format
    mergeway_cli.Store.Paths.normalize_relative_path_identifier
    mergeway_cli.Store.Paths.path_within_root mergeway_cli.Store.Paths.relative_path_identifier
    mergeway_cli.Value.Maps.clone_map mergeway_cli.Value.Maps.delete mergeway_cli.Value.Maps.find
    mergeway_cli.Value.Maps.set mergeway_cli.Value.Normalize.normalize_object
    mergeway_cli.Value.Normalize.normalize_yaml mergeway_cli.Value.Normalize.objects_of
    mergeway_cli.Value.Normalize.to_slice_map mergeway_cli.Value.Scalar.as_string
one_user_loaded = refl

types-Distinct : Distinct (keys users.config.types)
unfolding mergeway_cli.Prelude.member
types-Distinct = (refl, tt)

user_known : has users.config.types "User" ≡ true
unfolding has
user_known = refl

load_workspace-find_example :
    (load_objects users one_file "User" ≡ ok (objects one_user "User"))
    × (find_indexed one_user "User" "ada" ≡ with_id "ada" (objects one_user "User"))
load_workspace-find_example =
    load_workspace-find users one_file "/repo/mergeway.yaml" "User" "ada" types-Distinct user_known
      one_user_loaded

users_loaded : load_all users one_file user_type ≡ ok (ada ∷ [])
unfolding load_all mergeway_cli.Store.LoadAll.load_types put mergeway_cli.Store.LoadAll.add_loaded
    mergeway_cli.Store.LoadAll.load_exact_all mergeway_cli.Store.LoadAll.load_matches
    mergeway_cli.Store.LoadAll.load_content mergeway_cli.Store.LoadAll.load_items
    mergeway_cli.Store.LoadAll.load_object mergeway_cli.Store.LoadAll.load_inline
    mergeway_cli.Store.Derived.fields_with_derived_values mergeway_cli.Store.Derived.derive_fields
    require_type get mergeway_cli.Store.Load.find_exact_object mergeway_cli.Store.Load.find_among
    mergeway_cli.Store.Load.defs_of mergeway_cli.Store.Load.find_object_in_type
    mergeway_cli.Store.Load.find_hierarchy_object mergeway_cli.Config.IsA.assignable_types
    mergeway_cli.Config.IsA.descendant_types mergeway_cli.Config.IsA.descendants_among
    mergeway_cli.Go.Map.has mergeway_cli.Store.Load.resolve_include_matches
    mergeway_cli.Store.Load.match_includes mergeway_cli.Store.Load.match_paths
    mergeway_cli.Go.Order.sort_strings mergeway_cli.Prelude.member
    mergeway_cli.Store.Load.find_in_matches mergeway_cli.Store.Files.load_file
    mergeway_cli.Store.Files.load_document mergeway_cli.Value.Scalar.get_string
    mergeway_cli.Store.Load.find_in_content mergeway_cli.Go.FilePath.clean
    mergeway_cli.Go.FilePath.clean_parts mergeway_cli.Go.FilePath.clean_step
    mergeway_cli.Go.FilePath.dir mergeway_cli.Go.FilePath.ext mergeway_cli.Go.FilePath.is_abs
    mergeway_cli.Go.FilePath.join_path mergeway_cli.Go.FilePath.last_dot
    mergeway_cli.Go.FilePath.leads_out mergeway_cli.Go.FilePath.path_parts
    mergeway_cli.Go.FilePath.rel mergeway_cli.Go.FilePath.rel_parts mergeway_cli.Go.Int.format_int
    mergeway_cli.Go.Int.format_uint mergeway_cli.Go.Order.insert mergeway_cli.Go.Order.text_lt
    mergeway_cli.Go.Text.contains mergeway_cli.Go.Text.has_prefix mergeway_cli.Go.Text.is_space
    mergeway_cli.Go.Text.join mergeway_cli.Go.Text.map_chars mergeway_cli.Go.Text.replace_char
    mergeway_cli.Go.Text.split mergeway_cli.Go.Text.trim_left mergeway_cli.Go.Text.trim_right
    mergeway_cli.Go.Text.trim_space mergeway_cli.Store.Files.load_node
    mergeway_cli.Store.Files.load_nodes mergeway_cli.Store.Files.load_selected
    mergeway_cli.Store.Files.payload mergeway_cli.Store.Files.remove_file
    mergeway_cli.Store.Files.write_file mergeway_cli.Store.Files.write_single
    mergeway_cli.Store.Identifier.coerce_identifier_value
    mergeway_cli.Store.Identifier.derive_identifier
    mergeway_cli.Store.Identifier.extract_identifier_value mergeway_cli.Store.Identifier.to_float64
    mergeway_cli.Store.Identifier.to_int64 mergeway_cli.Store.Load.find_inline
    mergeway_cli.Store.Load.find_item mergeway_cli.Store.Operations.ensure_writable
    mergeway_cli.Store.Paths.detect_format
    mergeway_cli.Store.Paths.normalize_relative_path_identifier
    mergeway_cli.Store.Paths.path_within_root mergeway_cli.Store.Paths.relative_path_identifier
    mergeway_cli.Value.Maps.clone_map mergeway_cli.Value.Maps.delete mergeway_cli.Value.Maps.find
    mergeway_cli.Value.Maps.set mergeway_cli.Value.Normalize.normalize_object
    mergeway_cli.Value.Normalize.normalize_yaml mergeway_cli.Value.Normalize.objects_of
    mergeway_cli.Value.Normalize.to_slice_map mergeway_cli.Value.Scalar.as_string
users_loaded = refl

load_all-same_type_example : ◌≡◌ {A = String} "User" "User"
load_all-same_type_example =
    load_all-same_type users one_file user_type ada ada users_loaded here here refl

-- A loader whose configurations never load.
abbrev failing : Loader
failing = record {
  Disk = Unit;
  Config = Unit;
  Error = String;
  Report = Unit;
  load_config = λ disk docs i. err "broken";
  load = λ disk docs i config. err "broken";
  validate = λ disk docs i config. err "broken";
}

abbrev repo : RootIndex
repo = record {
  root = "/repo";
  config_path = "/repo/mergeway.yaml";
  config_files = "/repo/mergeway.yaml" ∷ [];
  data_files = [];
  workspace = none;
}

abbrev buffer : OpenDocument
buffer = record {
  uri = "file:///repo/a.yaml";
  path = "/repo/a.yaml";
  language_id = "yaml";
  version = pos 1;
  text = "";
}

abbrev fresh : Runtime failing
fresh = new_runtime failing (repo ∷ [])

abbrev opened : Runtime failing
opened = did_open failing fresh buffer

opened_run :
    Steps failing
      (record { runtime = fresh; reloads = [] })
      (record { runtime = opened; reloads = [] })
opened_run = next (opens buffer) (done _)

run-Views_example :
    (v : View failing) × ViewSteps failing (repo ∷ []) (initial_view failing (repo ∷ [])) v
    × Views failing (repo ∷ []) (record { runtime = opened; reloads = [] }) v
run-Views_example = run-Views failing (repo ∷ []) opened_run

one_root : Distinct (names (fresh.base))
unfolding new_runtime mergeway_cli.Prelude.member
one_root = (refl, tt)

one_root_opened : Distinct (names (opened.base))
unfolding new_runtime did_open mergeway_cli.Prelude.member
one_root_opened = (refl, tt)

held : get opened.documents "/repo/a.yaml" ≡ some buffer
unfolding did_open get put new_runtime
held = refl

flush-Reflects_example :
    (d : System failing) × Steps failing (record { runtime = opened; reloads = reading [] ∷ [] }) d
    × (d.reloads ≡ [])
    × (d.runtime.armed ≡ false)
    × (d.runtime.documents ≡ opened.documents)
    × Reflects failing tt opened.documents d.runtime
flush-Reflects_example =
    flush-Reflects failing (record { runtime = opened; reloads = reading [] ∷ [] }) tt
      one_root_opened

stale-Reflects_example :
    (d : System failing) × Steps failing (record { runtime = opened; reloads = [] }) d
    × (d.reloads ≡ [])
    × (d.runtime.armed ≡ false)
    × (get d.runtime.documents "/repo/a.yaml"
        ≡ some (edited failing (edited failing buffer (pos 2) "a") (pos 3) "b"))
    × Reflects failing tt
        (put opened.documents "/repo/a.yaml" (edited failing buffer (pos 2) "a"))
        d.runtime
stale-Reflects_example =
    stale-Reflects failing opened "/repo/a.yaml" buffer (pos 2) (pos 3) "a" "b" tt one_root_opened
      held
