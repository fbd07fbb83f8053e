-- ===== src/Workspace/Index.antt =====
-- internal/workspace/service.go: what `LoadWithConfigAndOps` loads, and the index over it. The root
-- and the configuration are those of the store.
pub mod Laws
use mergeway_cli.Prelude.{
  String, Bool, Option, none, some, Result, ok, err, ◌>>=◌, List, [], ◌∷◌, ◌++◌, ◌==◌,
  if◌then◌else◌,
}
use mergeway_cli.Go.Map.{Map, get, put, keys}
use mergeway_cli.Go.Order.{sort_strings}
use mergeway_cli.Config.Model.{Config}
use mergeway_cli.Store.Defs.{Object, StoreError, panics, Env}
use mergeway_cli.Store.Operations.{load_objects}

-- `Index`
abbrev pub Index : Type 0
Index = Map (Map (List Object))

pub record Workspace : Type 0 where
  pub root : String
  pub config_path : String
  pub config : Config
  pub objects_by_type : Map (List Object)
  pub index : Index

-- The objects under a key that may be missing.
abbrev pub listed : Option (List Object) → List Object
listed none = []
listed (some os) = os

-- The map under a key that may be missing.
abbrev pub table : Option (Map (List Object)) → Map (List Object)
table none = []
table (some m) = m

-- `index.ByType[typeName][obj.ID] = append(index.ByType[typeName][obj.ID], obj)` for each object
unfoldable pub index_objects : Map (List Object) → List Object → Map (List Object)
index_objects m [] = m
index_objects m (o ∷ os) = index_objects (put m o.id (listed (get m o.id) ++ o ∷ [])) os

-- the error of `Load` for a type
pub data LoadError : Type 0 where
  load_failed : String → StoreError → LoadError
  load_panics : LoadError

abbrev pub for_type : {A : Type 0} → String → Result StoreError A → Result LoadError A
for_type name (ok a) = ok a
for_type name (err panics) = err load_panics
for_type name (err e) = err (load_failed name e)

module _ (w : Env) where
  -- The loop over the names of the types.
  unfoldable pub load_named :
      w.State
      → List String
      → Map (List Object)
      → Index
      → Result LoadError (Map (List Object) × Index)
  load_named s [] by_type index = ok (by_type, index)
  load_named s (n ∷ ns) by_type index = for_type n (load_objects w s n) >>= λ os.
      load_named s ns (put by_type n os) (put index n (index_objects (table (get index n)) os))

  -- `LoadWithConfigAndOps`, with the path of the configuration that `resolvePaths` gives
  unfoldable pub load_workspace : w.State → String → Result LoadError Workspace
  load_workspace s config_path = load_named s (sort_strings (keys w.config.types)) [] [] >>= λ p.
      ok (record {
        root = w.root;
        config_path = config_path;
        config = w.config;
        objects_by_type = p.0;
        index = p.1;
      })

-- `Workspace.Objects`
unfoldable pub objects : Workspace → String → List Object
objects ws type_name = listed (get ws.objects_by_type type_name)

-- `Workspace.Find`
unfoldable pub find_indexed : Workspace → String → String → List Object
find_indexed ws type_name id = listed (get (table (get ws.index type_name)) id)
