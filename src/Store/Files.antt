-- ===== src/Store/Files.antt =====
-- internal/data/fileio.go: reading and writing the files, and the file of a new object.
pub mod Laws
use Prim.Native.String
use mergeway_cli.Prelude.{
  ℕ, String, Bool, true, false, not, ◌&&◌, ◌||◌, Option, none, some, Result, ok, err, ◌>>=◌, List,
  [], ◌∷◌, ◌==◌, ltb, length, if◌then◌else◌, map,
}
use mergeway_cli.Go.FilePath.{is_abs, clean, join_path, dir, rel, leads_out}
use mergeway_cli.Value.Defs.{Value, str, arr, obj, Items, nil, cons, Fields, end, field}
use mergeway_cli.Value.Maps.{find, set, delete}
use mergeway_cli.Value.Scalar.{get_string}
use mergeway_cli.Value.Normalize.{ShapeError, normalize_yaml, normalize_object, to_slice_map}
use mergeway_cli.Config.Model.{TypeDefinition, IncludeDefinition, is_path}
use mergeway_cli.Store.Defs.{
  MaybeMap, contents, FileFormat, FileContent, CreateTarget, FileError, StoreError, file_error,
  parse_error, encode_error, shape_error, node_error, node_declares, declares_other_type,
  selector_error, matched_nothing, glob_error, no_target, only_selectors, no_matching_include,
  unresolved_path, outside_root, Env,
}
use mergeway_cli.Store.Paths.{
  detect_format, absolute, sanitize_filename, replace_glob, has_glob,
  normalize_relative_path_identifier,
}
use mergeway_cli.Store.Derived.{remove_system_keys, delete_key}

abbrev pub from_file : {A : Type 0} → String → Result FileError A → Result StoreError A
from_file path (ok a) = ok a
from_file path (err e) = err (file_error path e)

abbrev pub from_text : {A : Type 0} → (String → StoreError) → Result String A → Result StoreError A
from_text wrap (ok a) = ok a
from_text wrap (err e) = err (wrap e)

abbrev pub from_shape : {A : Type 0} → String → Result ShapeError A → Result StoreError A
from_shape path (ok a) = ok a
from_shape path (err e) = err (shape_error path e)

abbrev pub or_blank : Option String → String
or_blank none = ""
or_blank (some s) = s

abbrev pub drop_type : Option String → MaybeMap → MaybeMap
drop_type none doc = doc
drop_type (some s) doc = delete_key doc "type"

-- the type that a document names, or the expected one
abbrev pub declared_or : String → String → String
declared_or declared expected = if declared == "" then expected else declared

-- another type than the expected one
abbrev pub differs : String → String → Bool
differs declared expected =
    not (expected == "") && not (declared == "") && not (declared == expected)

-- The content of a document of several objects, or of one.
abbrev pub document_content :
    String → String → FileFormat → MaybeMap → Option Value → Result StoreError FileContent
document_content path type_name format doc none = ok (record {
  path = path;
  type_name = type_name;
  format = format;
  multi = false;
  single = doc;
  items = [];
  selector = "";
  read_only = false;
})
document_content path type_name format doc (some raw) =
    from_shape path (to_slice_map raw) >>= λ slice. ok (record {
      path = path;
      type_name = type_name;
      format = format;
      multi = true;
      single = none;
      items = slice;
      selector = "";
      read_only = false;
    })

-- The content of the objects that a selector finds.
abbrev pub selected_content : String → String → FileFormat → String → List Fields → FileContent
selected_content path type_name format selector (m ∷ []) = record {
  path = path;
  type_name = type_name;
  format = format;
  multi = false;
  single = some m;
  items = [];
  selector = selector;
  read_only = true;
}
selected_content path type_name format selector ms = record {
  path = path;
  type_name = type_name;
  format = format;
  multi = ltb 1 (length ms);
  single = none;
  items = ms;
  selector = selector;
  read_only = true;
}

-- `payload[k] = v` for each entry
abbrev pub copy_into : Fields → Fields → Fields
copy_into dst end = dst
copy_into dst (field k v m) = copy_into (set dst k v) m

-- An operation on the files: the files that it leaves, and its result.
abbrev pub Outcome : Type 0 → Type 0 → Type 0
Outcome S A = S × Result StoreError A

-- the next operation, unless the first has failed
abbrev pub and_then : {S A B : Type 0} → Outcome S A → (S → A → Outcome S B) → Outcome S B
and_then (s, ok a) f = f s a
and_then (s, err e) f = (s, err e)

-- a step that only reads
abbrev pub reading : {S A B : Type 0} → S → Result StoreError A → (A → Outcome S B) → Outcome S B
reading s (ok a) f = f a
reading s (err e) f = (s, err e)

abbrev pub located_at : {S A : Type 0} → String → S × Result FileError A → Outcome S A
located_at path (s, r) = (s, from_file path r)

abbrev pub node_shape :
    {A : Type 0} → String → String → String → Result ShapeError A → Result StoreError A
node_shape selector path at (ok a) = ok a
node_shape selector path at (err e) = err (node_error selector path at e)

module _ (w : Env) where
  -- the type that a map names under the key
  abbrev pub type_under : MaybeMap → String → String
  type_under m key = or_blank (get_string w.floats (contents m) key)

  -- `loadFile` with no selector, behind the parser
  unfoldable pub load_document : String → String → MaybeMap → Result StoreError FileContent
  load_document path expected doc =
      let named = get_string w.floats (contents doc) "type" in
      let rest = drop_type named doc in
      let type_name = declared_or (or_blank named) expected in
      if differs type_name expected
      then err (declares_other_type path type_name expected)
      else document_content path type_name (detect_format path) rest (find (contents rest) "items")

  -- One node that the selector finds.
  unfoldable pub load_node : String → String → String → String × Value → Result StoreError Fields
  load_node path expected selector node =
      node_shape selector path node.0 (normalize_object node.1) >>= λ m.
      if differs (type_under (some m) "type") expected
      then err (node_declares selector path node.0 (type_under (some m) "type") expected)
      else if differs (type_under (some m) "Type") expected
      then err (node_declares selector path node.0 (type_under (some m) "Type") expected)
      else ok (contents (remove_system_keys (some m)))

  unfoldable pub load_nodes :
      String → String → String → List (String × Value) → Result StoreError (List Fields)
  load_nodes path expected selector [] = ok []
  load_nodes path expected selector (node ∷ nodes) = load_node path expected selector node >>= λ m.
      load_nodes path expected selector nodes >>= λ ms. ok (m ∷ ms)

  abbrev pub load_located :
      String → String → String → List (String × Value) → Result StoreError FileContent
  load_located path expected selector [] = err (matched_nothing selector path)
  load_located path expected selector (n ∷ ns) =
      load_nodes path expected selector (n ∷ ns) >>= λ ms.
      ok (selected_content path expected (detect_format path) selector ms)

  -- `loadFile` with a selector
  unfoldable pub load_selected : String → String → String → String → Result StoreError FileContent
  load_selected path expected selector text =
      from_text (parse_error path) (w.decode text) >>= λ root.
      from_shape path (normalize_yaml root) >>= λ normal.
      from_text (selector_error selector path) (w.select selector normal) >>= λ located.
      load_located path expected selector located

  -- `loadFile`
  unfoldable pub load_file : w.State → String → String → String → Result StoreError FileContent
  load_file s path expected selector = from_file path (w.read_file s path) >>= λ text.
      if selector == ""
      then from_text (parse_error path) (w.decode_map text) >>= load_document path expected
      else load_selected path expected selector text

  abbrev pub item_values : List Fields → Items
  item_values [] = nil
  item_values (m ∷ ms) = cons (obj m) (item_values ms)

  -- the payload of `writeFile`
  unfoldable pub payload : FileContent → Fields
  payload fc =
      let typed = if fc.type_name == "" then end else set end "type" (str fc.type_name) in
      if fc.multi
      then set typed "items" (arr (item_values fc.items))
      else copy_into typed (contents fc.single)

  -- `writeSingle`
  unfoldable pub write_single :
      w.State → String → FileFormat → MaybeMap → Outcome w.State (Unit {0})
  write_single s path format m =
      and_then (located_at (dir path) (w.make_dir s (dir path))) λ made u.
        reading made (from_text (encode_error path) (w.encode format m))
          λ text. located_at path (w.write_text made path text)

  -- `writeFile`, on content that is there
  unfoldable pub write_file : w.State → String → FileContent → Outcome w.State (Unit {0})
  write_file s path fc = write_single s path fc.format (some (payload fc))

  -- `removeFile`
  unfoldable pub remove_file : w.State → String → Outcome w.State (Unit {0})
  remove_file s path = located_at path (w.remove s path)

  -- `absPattern`
  abbrev pub abs_pattern : String → String
  abs_pattern pattern = if is_abs pattern then pattern else join_path w.root (clean pattern)

  -- The loop of `choosePathCreateTarget` over the includes.
  unfoldable pub matching_target :
      String → String → String → List IncludeDefinition → Result StoreError CreateTarget
  matching_target type_name id target [] = err (no_matching_include type_name id)
  matching_target type_name id target (i ∷ is) =
      let rest = matching_target type_name id target is in
      if not (i.selector == "") || i.path == ""
      then rest
      else (from_text (glob_error i.path) (w.glob_match (abs_pattern i.path) target) >>= λ matched.
          if matched
          then ok (record { path = target; format = detect_format target; multi = false })
          else rest)

  abbrev in_root : Option String → String → Result StoreError (Unit {0})
  in_root none id = err (unresolved_path id)
  in_root (some relative) id = if leads_out relative then err outside_root else ok tt

  -- `choosePathCreateTarget`
  unfoldable pub choose_path_create_target :
      TypeDefinition → String → Result StoreError CreateTarget
  choose_path_create_target t id = normalize_relative_path_identifier false id >>= λ rel_id.
      let target = clean (join_path w.root rel_id) in
      in_root (rel w.root target) rel_id >>= λ u. matching_target t.name rel_id target t.include

  abbrev pub or_multi : String → Bool → Option CreateTarget → Result StoreError CreateTarget
  or_multi type_name writable (some target) = ok target
  or_multi type_name true none = err (no_target type_name)
  or_multi type_name false none = err (only_selectors type_name)

  abbrev pub first_multi : Option CreateTarget → String → Option CreateTarget
  first_multi (some target) path = some target
  first_multi none path = some (record { path = path; format = detect_format path; multi = true })

  -- The loop of `chooseCreateTarget`: the file of several objects so far, and whether there is an
  -- include without a selector.
  unfoldable pub include_target :
      String
      → String
      → Option CreateTarget
      → Bool
      → List IncludeDefinition
      → Result StoreError CreateTarget
  include_target type_name id multi writable [] = or_multi type_name writable multi
  include_target type_name id multi writable (i ∷ is) =
      let selected = include_target type_name id multi writable is in
      let blank = include_target type_name id multi true is in
      let several = include_target type_name id (first_multi multi (abs_pattern i.path)) true is in
      let candidate = replace_glob (abs_pattern i.path) (sanitize_filename id) in
      if not (i.selector == "")
      then selected
      else if i.path == ""
      then blank
      else if has_glob (abs_pattern i.path)
      then ok (record { path = candidate; format = detect_format candidate; multi = false })
      else several

  -- `chooseCreateTarget`
  unfoldable pub choose_create_target : TypeDefinition → String → Result StoreError CreateTarget
  choose_create_target t id =
      if is_path t.identifier
      then choose_path_create_target t id
      else include_target t.name id none false t.include
