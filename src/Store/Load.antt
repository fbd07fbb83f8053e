-- ===== src/Store/Load.antt =====
-- internal/data/load.go: the files of a type, its objects, and the place of one of them.
pub mod Matches
pub mod Laws
use Prim.Native.String
use mergeway_cli.Prelude.{
  ℕ, zero, suc, ◌+◌, String, Bool, true, false, not, ◌&&◌, ◌||◌, Option, none, some, Result, ok,
  err, ◌>>=◌, List, [], ◌∷◌, ◌++◌, ◌==◌, if◌then◌else◌, member,
}
use mergeway_cli.Go.Map.{Map, get, put}
use mergeway_cli.Go.Order.{sort_strings}
use mergeway_cli.Value.Defs.{Fields}
use mergeway_cli.Value.Maps.{clone_map}
use mergeway_cli.Config.Model.{TypeDefinition, IncludeDefinition, is_path, Config}
use mergeway_cli.Config.IsA.{assignable_types}
use mergeway_cli.Store.Defs.{
  MaybeMap, clone_maybe, FileFormat, format_yaml, FileContent, Object, ObjectLocation, FileError,
  not_exist, other_error, StoreError, file_error, declares_other_type, several_objects, in_file,
  inline_item, glob_error, panics, duplicate_in_hierarchy, Env,
}
use mergeway_cli.Store.Identifier.{derive_identifier}
use mergeway_cli.Store.Derived.{fields_with_derived_values}
use mergeway_cli.Store.Files.{load_file, abs_pattern, from_text}

pub record IncludeMatch : Type 0 where
  pub include : IncludeDefinition
  pub path : String

-- The error with what its message puts before it; a panic goes through.
abbrev pub within :
    {A : Type 0} → (StoreError → StoreError) → Result StoreError A → Result StoreError A
within wrap (ok a) = ok a
within wrap (err panics) = err panics
within wrap (err e) = err (wrap e)

abbrev pub match_key : IncludeDefinition → String → String
match_key i path =
    String.◌++◌ i.path (String.◌++◌ "\0" (String.◌++◌ i.selector (String.◌++◌ "\0" path)))

-- an item of several that has the identifier, with its index
abbrev pub FoundItem : Type 0
FoundItem = Option (ℕ × Fields)

module _ (w : Env) where
  -- The loop over what a pattern finds: the keys that are seen, and the matches.
  unfoldable pub match_paths :
      w.State
      → IncludeDefinition
      → List String
      → List String
      → Result StoreError (List String × List IncludeMatch)
  match_paths s i seen [] = ok (seen, [])
  match_paths s i seen (path ∷ paths) = elim (w.is_dir s path) [
    | err not_exist ↦ match_paths s i seen paths
    | err (other_error e) ↦ err (file_error path (other_error e))
    | ok true ↦ match_paths s i seen paths
    | ok false ↦ elim (member seen (match_key i path)) [
      | true ↦ match_paths s i seen paths
      | false ↦ match_paths s i (match_key i path ∷ seen) paths >>= λ rest.
          ok (rest.0, record { include = i; path = path } ∷ rest.1)
    ]
  ]

  -- The loop over the includes.
  unfoldable pub match_includes :
      w.State → List String → List IncludeDefinition → Result StoreError (List IncludeMatch)
  match_includes s seen [] = ok []
  match_includes s seen (i ∷ is) = elim (i.path == "") [
    | true ↦ match_includes s seen is
    | false ↦ from_text (glob_error i.path) (w.glob s (abs_pattern w i.path)) >>= λ globbed.
        match_paths s i seen (sort_strings globbed) >>= λ now.
        match_includes s now.0 is >>= λ rest. ok (now.1 ++ rest)
  ]

  -- `resolveIncludeMatches`
  unfoldable pub resolve_include_matches :
      w.State → TypeDefinition → Result StoreError (List IncludeMatch)
  resolve_include_matches s t = match_includes s [] t.include

  -- the checks of a file's content against the type
  abbrev pub check_content : TypeDefinition → FileContent → Result StoreError (Unit {0})
  check_content t fc =
      if not (fc.type_name == "") && not (fc.type_name == t.name)
      then err (declares_other_type fc.path fc.type_name t.name)
      else if fc.multi && is_path t.identifier
      then err (several_objects t.name fc.path)
      else ok tt

  abbrev pub item_identifier : TypeDefinition → FileContent → MaybeMap → Result StoreError String
  item_identifier t fc m = within (in_file t.name fc.path) (derive_identifier w t m fc.path)

  -- The loop over the items of a file.
  unfoldable pub find_item :
      TypeDefinition → FileContent → String → ℕ → List Fields → Result StoreError FoundItem
  find_item t fc id idx [] = ok none
  find_item t fc id idx (m ∷ ms) =
      let later = find_item t fc id (suc idx) ms in
      item_identifier t fc (some m) >>= λ val. if val == id then ok (some (idx, m)) else later

  abbrev pub location :
      TypeDefinition → IncludeMatch → FileContent → String → ℕ → MaybeMap → ObjectLocation
  location t i fc id idx m = record {
    file_path = i.path;
    format = fc.format;
    multi = fc.multi;
    index = idx;
    id = id;
    object = clone_maybe m;
    file = some fc;
    type_name = t.name;
    inline = false;
    read_only = fc.read_only;
  }

  abbrev pub item_location :
      TypeDefinition → IncludeMatch → FileContent → String → FoundItem → Option ObjectLocation
  item_location t i fc id none = none
  item_location t i fc id (some p) = some (location t i fc id p.0 (some p.1))

  -- the object of the identifier in one file
  unfoldable pub find_in_content :
      TypeDefinition
      → IncludeMatch
      → FileContent
      → String
      → Result StoreError (Option ObjectLocation)
  find_in_content t i fc id =
      if fc.multi
      then (find_item t fc id 0 fc.items >>= λ found. ok (item_location t i fc id found))
      else (item_identifier t fc fc.single >>= λ val.
          ok (if val == id then some (location t i fc id 0 fc.single) else none))

  -- The loop over the inline objects; `n` is the number of the item in messages.
  unfoldable pub find_inline :
      TypeDefinition → String → ℕ → List Fields → Result StoreError (Option ObjectLocation)
  find_inline t id n [] = ok none
  find_inline t id n (m ∷ ms) =
      let later = find_inline t id (suc n) ms in
      within (inline_item t.name n) (derive_identifier w t (some m) "") >>= λ val.
      if val == id
      then ok (
          some (record {
            file_path = "";
            format = format_yaml;
            multi = false;
            index = 0;
            id = val;
            object = some (clone_map m);
            file = none;
            type_name = t.name;
            inline = true;
            read_only = false;
          }))
      else later

  -- a file that is gone meanwhile is left out
  abbrev pub unless_gone : Result StoreError FileContent → Result StoreError (Option FileContent)
  unless_gone (ok fc) = ok (some fc)
  unless_gone (err (file_error path not_exist)) = ok none
  unless_gone (err e) = err e

  -- The loop over the matches, and then the inline objects.
  unfoldable pub find_in_matches :
      w.State
      → TypeDefinition
      → String
      → List IncludeMatch
      → Result StoreError (Option ObjectLocation)
  find_in_matches s t id [] = find_inline t id 1 t.inline_data
  find_in_matches s t id (i ∷ is) =
      unless_gone (load_file w s i.path t.name i.include.selector) >>= λ loaded. elim loaded [
        | none ↦ find_in_matches s t id is
        | some fc ↦ check_content t fc >>= λ u. find_in_content t i fc id >>= λ found. elim found [
          | some loc ↦ ok (some loc)
          | none ↦ find_in_matches s t id is
        ]
      ]

  -- `findObjectInType`
  unfoldable pub find_object_in_type :
      w.State → TypeDefinition → String → Result StoreError (Option ObjectLocation)
  find_object_in_type s t id =
      resolve_include_matches s t >>= λ matches. find_in_matches s t id matches

  abbrev pub only_one :
      String
      → String
      → Option ObjectLocation
      → Option ObjectLocation
      → Result StoreError (Option ObjectLocation)
  only_one query id found none = ok found
  only_one query id none (some loc) = ok (some loc)
  only_one query id (some first) (some second) = err (
      duplicate_in_hierarchy query id first.type_name first.file_path second.type_name
        second.file_path)

  -- The loop of `findObjectInTypes`, with what is found so far.
  unfoldable pub find_among :
      w.State
      → String
      → String
      → Option ObjectLocation
      → List TypeDefinition
      → Result StoreError (Option ObjectLocation)
  find_among s query id found [] = ok found
  find_among s query id found (t ∷ ts) = find_object_in_type s t id >>= λ loc.
      only_one query id found loc >>= λ now. find_among s query id now ts

  -- the definitions of the names that the configuration has
  unfoldable pub defs_of : Config → List String → List TypeDefinition
  defs_of c [] = []
  defs_of c (n ∷ ns) = elim (get c.types n) [ none ↦ defs_of c ns | some t ↦ t ∷ defs_of c ns ]

  -- `assignableTypeDefs`
  abbrev pub assignable_type_defs : TypeDefinition → List TypeDefinition
  assignable_type_defs t = defs_of w.config (assignable_types w.config t.name)

  abbrev pub root_name : TypeDefinition → String
  root_name t = elim t.ancestors [ [] ↦ t.name | a ∷ as' ↦ a ]

  -- `hierarchyTypeDefs`
  abbrev pub hierarchy_type_defs : TypeDefinition → List TypeDefinition
  hierarchy_type_defs t = elim (get w.config.types (root_name t)) [
    | none ↦ t ∷ []
    | some root ↦ assignable_type_defs root
  ]

  -- `findObject`, `findExactObject` and `findHierarchyObject`
  unfoldable pub find_object :
      w.State → TypeDefinition → String → Result StoreError (Option ObjectLocation)
  find_object s t id = find_among s t.name id none (assignable_type_defs t)

  unfoldable pub find_exact_object :
      w.State → TypeDefinition → String → Result StoreError (Option ObjectLocation)
  find_exact_object s t id = find_among s t.name id none (t ∷ [])

  unfoldable pub find_hierarchy_object :
      w.State → TypeDefinition → String → Result StoreError (Option ObjectLocation)
  find_hierarchy_object s t id = find_among s t.name id none (hierarchy_type_defs t)
