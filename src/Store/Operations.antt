-- ===== src/Store/Operations.antt =====
-- internal/data/store_ops.go: the operations of the store.
pub mod Items
pub mod Frame
pub mod Create
pub mod Faults
pub mod Update
pub mod Delete
use mergeway_cli.Prelude.{
  ℕ, zero, suc, String, Bool, true, false, not, ◌&&◌, ◌||◌, Option, none, some, Result, ok, err,
  ◌>>=◌, List, [], ◌∷◌, ◌++◌, ◌==◌, if◌then◌else◌, map,
}
use mergeway_cli.Go.Map.{get}
use mergeway_cli.Go.Order.{sort_strings}
use mergeway_cli.Value.Defs.{Value, str, Fields}
use mergeway_cli.Value.Maps.{clone_map}
use mergeway_cli.Value.Merge.{merge_maps}
use mergeway_cli.Config.Model.{TypeDefinition, FieldDefinition, spec, is_path}
use mergeway_cli.Store.Defs.{
  MaybeMap, contents, clone_maybe, FileContent, Object, ObjectLocation, CreateTarget, FileError,
  not_exist, StoreError, file_error, id_required, declares_other_type, in_create, in_update,
  not_found, already_exists, is_inline, is_selected, outside_workspace, panics, Env, clone_location,
  clone_object, require_type,
}
use mergeway_cli.Store.Paths.{normalize_relative_path_identifier, path_within_root}
use mergeway_cli.Store.Identifier.{extract_identifier_value, coerce_identifier_value}
use mergeway_cli.Store.Derived.{
  assign, fields_with_derived_values, remove_derived_field_keys, remove_system_keys,
  clean_fields_for_type,
}
use mergeway_cli.Store.Files.{
  Outcome, and_then, reading, load_file, write_single, write_file, remove_file,
  choose_create_target,
}
use mergeway_cli.Store.Load.{
  within, unless_gone, find_object, find_exact_object, find_hierarchy_object,
}
use mergeway_cli.Store.LoadAll.{ids_of, load_all, load_exact_all}

-- `normalizeLookupID`
unfoldable pub normalize_lookup_id : TypeDefinition → String → Result StoreError String
normalize_lookup_id t id =
    if is_path t.identifier then normalize_relative_path_identifier true id else ok id

-- `items[index] = m`
unfoldable pub set_item : List Fields → ℕ → Fields → List Fields
set_item [] i m = []
set_item (x ∷ xs) zero m = m ∷ xs
set_item (x ∷ xs) (suc i) m = x ∷ set_item xs i m

-- `append(items[:index], items[index+1:]...)`
unfoldable pub remove_item : List Fields → ℕ → List Fields
remove_item [] i = []
remove_item (x ∷ xs) zero = xs
remove_item (x ∷ xs) (suc i) = x ∷ remove_item xs i

-- `mergeMaps`, which panics where it writes to a `nil` map
abbrev pub merge_into : MaybeMap → MaybeMap → Result StoreError MaybeMap
merge_into (some dst) (some src) = ok (some (merge_maps dst src))
merge_into (some dst) none = ok (some dst)
merge_into none none = ok none
merge_into none (some Fields.end) = ok none
merge_into none (some src) = err panics

abbrev pub or_not_found : String → String → Option ObjectLocation → Result StoreError ObjectLocation
or_not_found type_name id none = err (not_found type_name id)
or_not_found type_name id (some loc) = ok loc

module _ (w : Env) where
  -- `List`
  unfoldable pub list : w.State → String → Result StoreError (List String)
  list s type_name = require_type w.config type_name >>= λ t.
      load_all w s t >>= λ os. ok (sort_strings (ids_of os))

  -- `LoadExactAll`
  unfoldable pub load_exact_objects : w.State → String → Result StoreError (List Object)
  load_exact_objects s type_name = require_type w.config type_name >>= λ t.
      load_exact_all w s t >>= λ os. ok (map clone_object os)

  -- `LoadAll`
  unfoldable pub load_objects : w.State → String → Result StoreError (List Object)
  load_objects s type_name =
      require_type w.config type_name >>= λ t. load_all w s t >>= λ os. ok (map clone_object os)

  -- `ListExact`
  unfoldable pub list_exact : w.State → String → Result StoreError (List String)
  list_exact s type_name = load_exact_objects s type_name >>= λ os. ok (sort_strings (ids_of os))

  -- the object of the location, with the derived values of its type
  abbrev pub derived_object : TypeDefinition → ObjectLocation → Result StoreError Object
  derived_object t loc =
      fields_with_derived_values w t loc.file_path (clone_maybe loc.object) >>= λ fields.
      ok (record (clone_location loc) { fields = fields })

  -- `Get`
  unfoldable pub get_object : w.State → String → String → Result StoreError Object
  get_object s type_name raw_id =
      if raw_id == ""
      then err id_required
      else (require_type w.config type_name >>= λ t. normalize_lookup_id t raw_id >>= λ id.
          find_object w s t id >>= or_not_found type_name id >>= λ loc.
          require_type w.config loc.type_name >>= λ concrete. derived_object concrete loc)

  -- `GetExact`
  unfoldable pub get_exact_object : w.State → String → String → Result StoreError Object
  get_exact_object s type_name raw_id =
      if raw_id == ""
      then err id_required
      else (require_type w.config type_name >>= λ t. normalize_lookup_id t raw_id >>= λ id.
          find_exact_object w s t id >>= or_not_found type_name id >>= λ loc. derived_object t loc)

  -- `ensureWorkspaceWritablePath`
  unfoldable pub ensure_writable : TypeDefinition → String → String → Result StoreError (Unit {0})
  ensure_writable t id path =
      if not (is_path t.identifier) || path == ""
      then ok tt
      else (path_within_root w.root path >>= λ inside.
          if inside then ok tt else err (outside_workspace t.name id))

  -- the object that `Create` and `Update` return, behind the write
  abbrev pub returned :
      TypeDefinition → String → String → MaybeMap → w.State → Outcome w.State Object
  returned t id path m s = reading s (fields_with_derived_values w t path m) λ fields. (
    s,
    ok (record {
      type_name = t.name;
      id = id;
      fields = fields;
      file = path;
      inline = false;
      read_only = false;
    }),
  )

  -- the location that `Update` and `Delete` change, with the guards before it
  unfoldable pub writable_location :
      w.State → String → TypeDefinition → String → Result StoreError ObjectLocation
  writable_location s type_name t id =
      find_exact_object w s t id >>= or_not_found type_name id >>= λ loc.
      if loc.inline
      then err (is_inline type_name id)
      else if loc.read_only
      then err (is_selected type_name id)
      else ensure_writable t id loc.file_path >>= λ u. ok loc

  -- `normalized[idField] = value`, unless the path is the identifier
  abbrev pub with_identifier : TypeDefinition → Value → MaybeMap → Result StoreError MaybeMap
  with_identifier t v m = if is_path t.identifier then ok m else assign m t.identifier.field v

  abbrev pub absent : String → String → Option ObjectLocation → Result StoreError (Unit {0})
  absent type_name id none = ok tt
  absent type_name id (some loc) = err (already_exists type_name id)

  -- the content that an object is added to: the file's, or new content
  abbrev pub content_or_new : TypeDefinition → CreateTarget → Option FileContent → FileContent
  content_or_new t target (some fc) = record fc {
    type_name = if fc.type_name == "" then t.name else fc.type_name;
  }
  content_or_new t target none = record {
    path = "";
    type_name = t.name;
    format = target.format;
    multi = true;
    single = none;
    items = [];
    selector = "";
    read_only = false;
  }

  abbrev pub with_item : FileContent → String → MaybeMap → FileContent
  with_item fc path m = record fc { path = path; items = fc.items ++ contents (clone_maybe m) ∷ [] }

  -- the end of `Create` for a target of several objects
  abbrev pub create_in :
      TypeDefinition
      → CreateTarget
      → String
      → MaybeMap
      → FileContent
      → w.State
      → Outcome w.State Object
  create_in t target id m fc s =
      if not (fc.type_name == t.name)
      then (s, err (declares_other_type target.path fc.type_name t.name))
      else and_then (write_file w s target.path (with_item fc target.path m))
          λ written u. returned t id target.path m written

  -- the end of `Create`, with what the target's file holds
  unfoldable pub create_at :
      TypeDefinition
      → CreateTarget
      → String
      → MaybeMap
      → Option FileContent
      → w.State
      → Outcome w.State Object
  create_at t target id m doc s =
      if target.multi
      then create_in t target id m (content_or_new t target doc) s
      else and_then (write_single w s target.path target.format m)
          λ written u. returned t id target.path m written

  -- What `Create` does before it chooses the file: the type, and the identifier with its value.
  unfoldable pub new_identifier :
      w.State → String → TypeDefinition → MaybeMap → Result StoreError (String × Value)
  new_identifier s type_name t fields =
      within (in_create type_name) (extract_identifier_value w t fields) >>= λ p.
      find_hierarchy_object w s t p.0 >>= λ found. absent type_name p.0 found >>= λ u. ok p

  -- `Create`
  unfoldable pub create : w.State → String → MaybeMap → Outcome w.State Object
  create s type_name fields = reading s (require_type w.config type_name) λ t.
      reading s (new_identifier s type_name t fields) λ p.
        reading s (choose_create_target w t p.0) λ target.
          reading s (unless_gone w (load_file w s target.path t.name "")) λ doc.
            reading s (with_identifier t p.1 (clean_fields_for_type t fields))
              λ m. create_at t target p.0 m doc s

  -- the value of the identifier's field: the identifier in the type of the field
  abbrev pub identifier_value :
      Option FieldDefinition → String → String → String → Result StoreError Value
  identifier_value none type_name name id = ok (str id)
  identifier_value (some f) type_name name id =
      within (in_update type_name) (coerce_identifier_value w (spec f).type_name name (str id))

  abbrev pub set_identifier :
      String → TypeDefinition → String → MaybeMap → Result StoreError MaybeMap
  set_identifier type_name t id m =
      if is_path t.identifier
      then ok m
      else (identifier_value (get t.fields t.identifier.field) type_name t.identifier.field id
          >>= λ v. assign m t.identifier.field v)

  -- the map that `Update` writes
  unfoldable pub updated_fields :
      String
      → TypeDefinition
      → String
      → ObjectLocation
      → MaybeMap
      → Bool
      → Result StoreError MaybeMap
  updated_fields type_name t id loc fields merge =
      (if merge
        then merge_into (clone_maybe loc.object) fields
        else ok (clean_fields_for_type t fields))
      >>= λ m. set_identifier type_name t id m >>= λ named.
          ok (remove_derived_field_keys t.fields (remove_system_keys named))

  -- `loc.File.Items = items`; the file of a location of several objects is there.
  abbrev pub write_items :
      w.State
      → ObjectLocation
      → Option FileContent
      → (List Fields → List Fields)
      → Outcome w.State (Unit {0})
  write_items s loc none change = (s, err panics)
  write_items s loc (some fc) change =
      write_file w s loc.file_path (record fc { items = change fc.items })

  abbrev pub write_object : w.State → ObjectLocation → MaybeMap → Outcome w.State (Unit {0})
  write_object s loc m =
      if loc.multi
      then write_items s loc loc.file (λ xs. set_item xs loc.index (contents (clone_maybe m)))
      else write_single w s loc.file_path loc.format m

  -- `Update`
  unfoldable pub update : w.State → String → String → MaybeMap → Bool → Outcome w.State Object
  update s type_name raw_id fields merge = reading s (require_type w.config type_name) λ t.
      reading s (normalize_lookup_id t raw_id) λ id.
        reading s (writable_location s type_name t id) λ loc.
          reading s (updated_fields type_name t id loc fields merge)
            λ m. and_then (write_object s loc m) λ written u. returned t id loc.file_path m written

  -- what is left in the file of a deleted object
  abbrev pub rest_written :
      w.State → ObjectLocation → FileContent → List Fields → Outcome w.State (Unit {0})
  rest_written s loc fc [] = remove_file w s loc.file_path
  rest_written s loc fc (m ∷ ms) = write_file w s loc.file_path (record fc { items = m ∷ ms })

  -- the end of `Delete` for a location of several objects
  abbrev pub delete_from :
      w.State → ObjectLocation → Option FileContent → Outcome w.State (Unit {0})
  delete_from s loc none = (s, err panics)
  delete_from s loc (some fc) = rest_written s loc fc (remove_item fc.items loc.index)

  -- the end of `Delete`
  unfoldable pub delete_at : w.State → ObjectLocation → Outcome w.State (Unit {0})
  delete_at s loc = if loc.multi then delete_from s loc loc.file else remove_file w s loc.file_path

  -- `Delete`
  unfoldable pub delete_object : w.State → String → String → Outcome w.State (Unit {0})
  delete_object s type_name raw_id = reading s (require_type w.config type_name) λ t.
      reading s (normalize_lookup_id t raw_id)
        λ id. reading s (writable_location s type_name t id) λ loc. delete_at s loc
