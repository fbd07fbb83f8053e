-- ===== src/Store/LoadAll.antt =====
-- `loadExactAll` and `loadAll` of internal/data/load.go: all the objects of a type.
pub mod Laws
use mergeway_cli.Prelude.{
  ℕ, suc, String, true, false, none, some, Result, ok, err, ◌>>=◌, List, [], ◌∷◌, ◌++◌, ◌==◌,
  if◌then◌else◌, member,
}
use mergeway_cli.Go.Map.{Map, get, put}
use mergeway_cli.Value.Defs.{Fields}
use mergeway_cli.Value.Maps.{clone_map}
use mergeway_cli.Config.Model.{TypeDefinition}
use mergeway_cli.Store.Defs.{
  MaybeMap, FileContent, Object, StoreError, in_file, inline_item, duplicate_in_hierarchy, Env,
}
use mergeway_cli.Store.Identifier.{derive_identifier}
use mergeway_cli.Store.Derived.{fields_with_derived_values}
use mergeway_cli.Store.Files.{load_file}
use mergeway_cli.Store.Load.{
  IncludeMatch, resolve_include_matches, check_content, item_identifier, within,
  assignable_type_defs,
}

abbrev pub ids_of : List Object → List String
ids_of [] = []
ids_of (o ∷ os) = o.id ∷ ids_of os

module _ (w : Env) where
  -- the object of one map in a file
  unfoldable pub load_object : TypeDefinition → FileContent → MaybeMap → Result StoreError Object
  load_object t fc m = item_identifier w t fc m >>= λ id.
      within (in_file t.name fc.path) (fields_with_derived_values w t fc.path m) >>= λ fields.
      ok (record {
        type_name = t.name;
        id = id;
        fields = fields;
        file = fc.path;
        inline = false;
        read_only = fc.read_only;
      })

  unfoldable pub load_items :
      TypeDefinition → FileContent → List Fields → Result StoreError (List Object)
  load_items t fc [] = ok []
  load_items t fc (m ∷ ms) =
      load_object t fc (some m) >>= λ o. load_items t fc ms >>= λ os. ok (o ∷ os)

  unfoldable pub load_content : TypeDefinition → FileContent → Result StoreError (List Object)
  load_content t fc = check_content w t fc >>= λ u.
      if fc.multi then load_items t fc fc.items else load_object t fc fc.single >>= λ o. ok (o ∷ [])

  -- The loop over the matches.
  unfoldable pub load_matches :
      w.State → TypeDefinition → List IncludeMatch → Result StoreError (List Object)
  load_matches s t [] = ok []
  load_matches s t (i ∷ is) = load_file w s i.path t.name i.include.selector >>= λ fc.
      load_content t fc >>= λ now. load_matches s t is >>= λ rest. ok (now ++ rest)

  -- The loop over the inline objects; one whose identifier is seen is left out.
  unfoldable pub load_inline :
      TypeDefinition → List String → ℕ → List Fields → Result StoreError (List Object)
  load_inline t seen n [] = ok []
  load_inline t seen n (m ∷ ms) =
      within (inline_item t.name n) (derive_identifier w t (some m) "") >>= λ id.
      elim (member seen id) [
        | true ↦ load_inline t seen (suc n) ms
        | false ↦ load_inline t (id ∷ seen) (suc n) ms >>= λ rest. ok (
            record {
              type_name = t.name;
              id = id;
              fields = some (clone_map m);
              file = "";
              inline = true;
              read_only = true;
            }
            ∷ rest)
      ]

  -- `loadExactAll`
  unfoldable pub load_exact_all : w.State → TypeDefinition → Result StoreError (List Object)
  load_exact_all s t = resolve_include_matches w s t >>= λ matches.
      load_matches s t matches >>= λ loaded.
      load_inline t (ids_of loaded) 1 t.inline_data >>= λ inlined. ok (loaded ++ inlined)

  -- The loop of `loadAll` over the objects of a type; `seen` has the first object of each identifier.
  unfoldable pub add_loaded : String → Map Object → List Object → Result StoreError (Map Object)
  add_loaded query seen [] = ok seen
  add_loaded query seen (o ∷ os) = elim (get seen o.id) [
    | none ↦ add_loaded query (put seen o.id o) os
    | some first ↦ elim (first.type_name == o.type_name) [
      | true ↦ add_loaded query seen os
      | false ↦
          err (duplicate_in_hierarchy query o.id first.type_name first.file o.type_name o.file)
    ]
  ]

  unfoldable pub load_types :
      w.State → String → Map Object → List TypeDefinition → Result StoreError (List Object)
  load_types s query seen [] = ok []
  load_types s query seen (t ∷ ts) = load_exact_all s t >>= λ loaded.
      add_loaded query seen loaded >>= λ now.
      load_types s query now ts >>= λ rest. ok (loaded ++ rest)

  -- `loadAll`
  unfoldable pub load_all : w.State → TypeDefinition → Result StoreError (List Object)
  load_all s t = load_types s t.name [] (assignable_type_defs w t)
