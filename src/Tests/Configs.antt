-- ===== src/Tests/Configs.antt =====
-- The loading of configuration files at concrete inputs.
use mergeway_cli.Prelude.{
  suc, String, ◌≡◌, refl, ◌≢◌, true, false, none, some, Option-cases, Result, ok, err, err-ne-ok,
  List, [], ◌∷◌, ◌==◌, if◌then◌else◌, inl, inr, length, member, sym, ◌∙◌,
}
use mergeway_cli.Go.Int.{pos}
use mergeway_cli.Go.Map.{Map, get, keys, get-has, has-keys}
use mergeway_cli.Config.Raw.{RawTypeSpec, RawType, no_entry}
use mergeway_cli.Config.Load.{
  RawDocument, Aggregate, ConfigError, out_of_fuel, include_cycle, defined_in_both, Files,
  load_aggregate,
}
use mergeway_cli.Config.Load.Total.{load_aggregate-total}
use mergeway_cli.Config.Load.Laws.{IsSound, load_aggregate-IsSound}

abbrev spec : String → RawTypeSpec
spec text = record {
  identifier = record { field = "id"; generated = false; pattern = ""; set = true };
  extends = "";
  include = [];
  fields = no_entry;
  json_schema = "";
  inline_data = [];
  description = text;
}

-- A document with the includes and one entity.
abbrev document : List String → String → RawDocument
document includes name = record {
  mergeway = some (some (pos 1));
  include = includes;
  entities = (name, spec name) ∷ [];
}

abbrev read_from : Map String → String → Result String String
read_from disk path = elim (get disk path) [ none ↦ err "missing" | some text ↦ ok text ]

-- The text of a file is the name of what it includes and of its entity; a glob matches itself.
abbrev decode_text : String → Result String RawDocument
decode_text text =
    if text == "main"
    then ok (document ("types.yaml" ∷ []) "Post")
    else if text == "types"
    then ok (document [] "User")
    else if text == "diamond"
    then ok (document ("left.yaml" ∷ "right.yaml" ∷ []) "Diamond")
    else if text == "left"
    then ok (document ("types.yaml" ∷ []) "Left")
    else if text == "right"
    then ok (document ("types.yaml" ∷ []) "Right")
    else ok (document ("loop.yaml" ∷ []) "Loop")

abbrev files_of : Map String → Files
files_of disk = record {
  read = read_from disk;
  decode = decode_text;
  glob = λ pattern. ok (pattern ∷ []);
  working_dir = "/repo";
}

abbrev disk : Map String
disk =
    ("/repo/mergeway.yaml", "main")
    ∷ ("/repo/types.yaml", "types")
    ∷ ("/repo/loop.yaml", "loop")
    ∷ ("/repo/diamond.yaml", "diamond")
    ∷ ("/repo/left.yaml", "left")
    ∷ ("/repo/right.yaml", "right")
    ∷ []

abbrev entity : String → String → String × RawType
entity name source = (name, record { name = name; spec = spec name; source = source })

abbrev loaded : Aggregate
loaded = record {
  version = some (pos 1);
  entities = entity "User" "/repo/types.yaml" ∷ entity "Post" "/repo/mergeway.yaml" ∷ [];
}

two_loaded : load_aggregate (files_of disk) 4 "mergeway.yaml" ≡ ok loaded
unfolding load_aggregate mergeway_cli.Config.Load.load_recursive get member
    mergeway_cli.Config.Load.load_fresh mergeway_cli.Go.FilePath.is_abs
    mergeway_cli.Go.FilePath.join_path mergeway_cli.Go.FilePath.clean mergeway_cli.Go.Text.join
    mergeway_cli.Go.FilePath.clean_parts mergeway_cli.Go.Text.split
    mergeway_cli.Go.FilePath.clean_step mergeway_cli.Config.Load.load_includes
    mergeway_cli.Config.Load.load_included mergeway_cli.Go.Order.sort_strings
    mergeway_cli.Go.FilePath.dir mergeway_cli.Config.Load.add_document
    mergeway_cli.Config.Load.add_entities mergeway_cli.Config.Load.merge
    mergeway_cli.Config.Load.merge_entities mergeway_cli.Go.Map.put mergeway_cli.Go.Order.insert
    mergeway_cli.Go.Order.text_lt
two_loaded = refl

loop_found : load_aggregate (files_of disk) 4 "loop.yaml" ≡ err (include_cycle "/repo/loop.yaml")
unfolding load_aggregate mergeway_cli.Config.Load.load_recursive get member
    mergeway_cli.Config.Load.load_fresh mergeway_cli.Go.FilePath.is_abs
    mergeway_cli.Go.FilePath.join_path mergeway_cli.Go.FilePath.clean mergeway_cli.Go.Text.join
    mergeway_cli.Go.FilePath.clean_parts mergeway_cli.Go.Text.split
    mergeway_cli.Go.FilePath.clean_step mergeway_cli.Config.Load.load_includes
    mergeway_cli.Config.Load.load_included mergeway_cli.Go.Order.sort_strings
    mergeway_cli.Go.FilePath.dir
loop_found = refl

diamond_refused :
    load_aggregate (files_of disk) 7 "diamond.yaml"
    ≡ err (defined_in_both "User" "/repo/types.yaml" "/repo/types.yaml")
unfolding load_aggregate mergeway_cli.Config.Load.load_recursive get member
    mergeway_cli.Config.Load.load_fresh mergeway_cli.Go.FilePath.is_abs
    mergeway_cli.Go.FilePath.join_path mergeway_cli.Go.FilePath.clean mergeway_cli.Go.Text.join
    mergeway_cli.Go.FilePath.clean_parts mergeway_cli.Go.Text.split
    mergeway_cli.Go.FilePath.clean_step mergeway_cli.Config.Load.load_includes
    mergeway_cli.Config.Load.load_included mergeway_cli.Go.Order.sort_strings
    mergeway_cli.Go.FilePath.dir mergeway_cli.Config.Load.add_document
    mergeway_cli.Config.Load.add_entities mergeway_cli.Config.Load.merge
    mergeway_cli.Config.Load.merge_entities mergeway_cli.Go.Map.put mergeway_cli.Go.Order.insert
    mergeway_cli.Go.Order.text_lt
diamond_refused = refl

load_aggregate-IsSound_example : IsSound (files_of disk) loaded
load_aggregate-IsSound_example = load_aggregate-IsSound (files_of disk) 4 "mergeway.yaml" two_loaded

disk_known : (p text : String) → read_from disk p ≡ ok text → member (keys disk) p ≡ true
disk_known p text h = elim (Option-cases (get disk p)) [
  | inl n ↦ absurd (err-ne-ok (rw (read_from, n) at h))
  | inr t ↦ sym (has-keys disk p) ∙ get-has disk p t.1
]

load_aggregate-total_example :
    load_aggregate (files_of disk) (suc (length (keys disk))) "mergeway.yaml" ≢ err out_of_fuel
load_aggregate-total_example =
    load_aggregate-total (files_of disk) (keys disk) "mergeway.yaml" disk_known
