-- ===== src/Config/Load.antt =====
-- internal/config/load.go: the configuration file with the files it includes. The file system and the
-- YAML decoder are parameters; the map of the entities of a file is the list of its entries.
pub mod Laws
pub mod Total
use mergeway_cli.Prelude.{
  ℕ, zero, suc, String, Bool, true, false, Option, none, some, Result, ok, err, ◌>>=◌, List, [],
  ◌∷◌, ◌==◌, if◌then◌else◌, eqb, member, not,
}
use mergeway_cli.Go.Int.{ℤ, pos, negsuc}
use mergeway_cli.Go.Map.{Map, get, put}
use mergeway_cli.Go.FilePath.{clean, dir, is_abs, join_path}
use mergeway_cli.Go.Order.{sort_strings}
use mergeway_cli.Config.Raw.{RawTypeSpec, RawType}

-- `rawConfigDocument`, with `rawMergewaySection` as an optional version that may be left out
pub record RawDocument : Type 0 where
  pub mergeway : Option (Option ℤ)
  pub include : List String
  pub entities : Map RawTypeSpec

-- `aggregateConfig`; the version is none where `VersionSet` is false.
pub record Aggregate : Type 0 where
  pub version : Option ℤ
  pub entities : Map RawType

pub data ConfigError : Type 0 where
  path_required unnamed_entity : ConfigError
  include_cycle mergeway_required version_required : String → ConfigError
  read_failed parse_failed : String → String → ConfigError
  glob_failed : String → String → String → ConfigError
  no_matches : String → String → ConfigError
  defined_in_both : String → String → String → ConfigError
  version_mismatch : ℤ → ℤ → ConfigError
  version_unsupported : String → ℤ → ConfigError
  out_of_fuel : ConfigError

pub record Files : Type 0 where
  pub read : String → Result String String
  pub decode : String → Result String RawDocument
  pub glob : String → Result String (List String)
  pub working_dir : String

abbrev pub same_int : ℤ → ℤ → Bool
same_int (pos m) (pos n) = eqb m n
same_int (negsuc m) (negsuc n) = eqb m n
same_int i j = false

-- `CurrentVersion`
abbrev pub current_version : ℤ
current_version = pos 1

-- the error of a step, where it has one
abbrev pub step_error :
    {A : Type 0} → (String → ConfigError) → Result String A → Result ConfigError A
step_error wrap (ok a) = ok a
step_error wrap (err e) = err (wrap e)

-- `newAggregateConfig`
abbrev pub new_aggregate : Aggregate
new_aggregate = record { version = none; entities = [] }

-- the version of two, where they agree
abbrev pub join_version : Option ℤ → Option ℤ → Result ConfigError (Option ℤ)
join_version v none = ok v
join_version none (some j) = ok (some j)
join_version (some i) (some j) = if same_int i j then ok (some i) else err (version_mismatch i j)

abbrev pub undefined : String → String → Option RawType → Result ConfigError (Unit {0})
undefined name source none = ok tt
undefined name source (some t) = err (defined_in_both name t.source source)

-- the loop of `merge`
unfoldable pub merge_entities : Map RawType → Map RawType → Result ConfigError (Map RawType)
merge_entities es [] = ok es
merge_entities es ((name, t) ∷ ts) =
    undefined name t.source (get es name) >>= λ u. merge_entities (put es name t) ts

-- `merge`
unfoldable pub merge : Aggregate → Aggregate → Result ConfigError Aggregate
merge a other = join_version a.version other.version >>= λ v.
    merge_entities a.entities other.entities >>= λ es. ok (record { version = v; entities = es })

abbrev pub document_version : String → Option (Option ℤ) → Result ConfigError ℤ
document_version source none = err (mergeway_required source)
document_version source (some none) = err (version_required source)
document_version source (some (some i)) =
    if same_int i current_version then ok i else err (version_unsupported source i)

-- the loop of `addDocument`
unfoldable pub add_entities :
    String → Map RawType → Map RawTypeSpec → Result ConfigError (Map RawType)
add_entities source es [] = ok es
add_entities source es ((name, spec) ∷ specs) =
    if name == ""
    then err unnamed_entity
    else (undefined name source (get es name) >>= λ u.
        add_entities source (put es name (record { name = name; spec = spec; source = source }))
          specs)

-- `addDocument`
unfoldable pub add_document : Aggregate → RawDocument → String → Result ConfigError Aggregate
add_document a doc source = document_version source doc.mergeway >>= λ i.
    join_version a.version (some i) >>= λ v.
    add_entities source a.entities doc.entities >>= λ es. ok (record { version = v; entities = es })

abbrev pub Cache : Type 0
Cache = Map Aggregate

-- `loadRecursive` for one file, on the cache
abbrev pub Loading : Type 0
Loading = String → Cache → Result ConfigError (Aggregate × Cache)

module _ (f : Files) where
  -- `filepath.Abs`
  abbrev pub abs_path : String → String
  abs_path path = if is_abs path then clean path else join_path f.working_dir path

  -- The loop over the matches of an include.
  unfoldable pub load_included :
      Loading → Aggregate → Cache → List String → Result ConfigError (Aggregate × Cache)
  load_included rec agg cache [] = ok (agg, cache)
  load_included rec agg cache (m ∷ ms) =
      rec (abs_path m) cache >>= λ p. merge agg p.0 >>= λ now. load_included rec now p.1 ms

  abbrev pub include_matches : String → String → List String → Result ConfigError (List String)
  include_matches include path [] = err (no_matches include path)
  include_matches include path (m ∷ ms) = ok (sort_strings (m ∷ ms))

  -- The loop over the includes of the file.
  unfoldable pub load_includes :
      Loading → String → Aggregate → Cache → List String → Result ConfigError (Aggregate × Cache)
  load_includes rec path agg cache [] = ok (agg, cache)
  load_includes rec path agg cache (i ∷ is) =
      step_error (glob_failed i path) (f.glob (if is_abs i then i else join_path (dir path) i))
      >>= λ found. include_matches i path found >>= λ ms.
          load_included rec agg cache ms >>= λ p. load_includes rec path p.0 p.1 is

  -- the rest of `loadRecursive`, for a file that is neither cached nor on the stack
  unfoldable pub load_fresh : Loading → Loading
  load_fresh rec path cache = step_error (read_failed path) (f.read path) >>= λ content.
      step_error (parse_failed path) (f.decode content) >>= λ doc.
      load_includes rec path new_aggregate cache doc.include >>= λ p.
      add_document p.0 doc path >>= λ agg. ok (agg, put p.1 path agg)

  -- `loadRecursive`; the stack is as before once it returns.
  unfoldable pub load_recursive : ℕ → List String → Loading
  load_recursive zero stack path cache = err out_of_fuel
  load_recursive (suc n) stack path cache = elim (get cache path) [
    | some agg ↦ ok (agg, cache)
    | none ↦ elim (member stack path) [
      | true ↦ err (include_cycle path)
      | false ↦ load_fresh (load_recursive n (path ∷ stack)) path cache
    ]
  ]

  -- `LoadWithOps` up to `normalizeAggregate`
  unfoldable pub load_aggregate : ℕ → String → Result ConfigError Aggregate
  load_aggregate fuel path =
      if path == ""
      then err path_required
      else (load_recursive fuel [] (abs_path path) [] >>= λ p. ok p.0)
