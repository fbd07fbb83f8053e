-- ===== src/Workspace/Overlay.antt =====
-- The file operations of internal/workspace/overlays.go, in which open documents lie over the files,
-- and the paths of internal/workspace/roots.go that a root owns. `filepath.Match` and the working
-- directory are parameters; of `Stat` only the kind is kept.
pub mod Laws
use mergeway_cli.Prelude.{
  String, ◌≡◌, ◌↔◌, ◌⊎◌, refl, Bool, true, false, ◌||◌, Option, none, some, Result, ok, err, ok_inj,
  err-ne-ok, ◌>>=◌, >>=-eq-ok, List, [], ◌∷◌, ◌==◌, if◌then◌else◌, arith, eq_iff, ap, sym, ◌∙◌, inl,
  inr, Bool-cases, member, if_true, if_false,
}
use mergeway_cli.Go.FilePath.{clean, is_abs, join_path}
use mergeway_cli.Go.Map.{Map, get, has, keys}
use mergeway_cli.Go.Order.{sort_strings, member-sort_strings}
use mergeway_cli.Go.Text.{trim_space}
use mergeway_cli.Store.Defs.{FileError}
use mergeway_cli.Workspace.Runtime.{OpenDocument, Documents, RootIndex}

-- `fileutil.Ops`
pub record Ops : Type 0 where
  pub read_file : String → Result FileError String
  pub is_dir : String → Result FileError Bool
  pub glob : String → Result String (List String)

-- `normalizeOwnedPath`
unfoldable pub normalize_owned_path : String → String → Option String
normalize_owned_path working_dir path =
    if trim_space path == ""
    then none
    else some (clean (if is_abs path then path else join_path working_dir path))

-- `OwnsPath` on the normalised path
abbrev pub owns : RootIndex → Option String → Bool
owns r none = false
owns r (some p) = if member r.config_files p then true else has r.data_files p

-- `OwnsPath`
unfoldable pub owns_path : String → RootIndex → String → Bool
owns_path working_dir r path = owns r (normalize_owned_path working_dir path)

abbrev pub types_at : RootIndex → Option String → List String
types_at r none = []
types_at r (some p) = elim (get r.data_files p) [ none ↦ [] | some names ↦ names ]

-- `TypesForFile`
unfoldable pub types_for_file : String → RootIndex → String → List String
types_for_file working_dir r path = types_at r (normalize_owned_path working_dir path)

-- `seen[path] = struct{}{}`
abbrev pub add_path : List String → String → List String
add_path seen path = if member seen path then seen else path ∷ seen

-- The loop of `Glob` over the matches of the files.
unfoldable pub add_cleaned : List String → List String → List String
add_cleaned seen [] = seen
add_cleaned seen (m ∷ ms) = add_cleaned (add_path seen (clean m)) ms

module _ (glob_match : String → String → Result String Bool) (working_dir : String) where
  -- The loop of `Glob` over the open documents.
  unfoldable pub add_matching : String → List String → List String → Result String (List String)
  add_matching pattern seen [] = ok seen
  add_matching pattern seen (p ∷ ps) = glob_match pattern p >>= λ matches.
      add_matching pattern (if matches then add_path seen p else seen) ps

  abbrev pub document_at : Documents → Option String → Option OpenDocument
  document_at docs none = none
  document_at docs (some p) = get docs p

  abbrev pub text_or : Option OpenDocument → Result FileError String → Result FileError String
  text_or none other = other
  text_or (some doc) other = ok doc.text

  abbrev pub kind_or : Option OpenDocument → Result FileError Bool → Result FileError Bool
  kind_or none other = other
  kind_or (some doc) other = ok false

  -- `overlayOps.fileOps`
  unfoldable pub file_ops : Ops → Documents → Ops
  file_ops base docs = record {
    read_file = λ path.
        text_or (document_at docs (normalize_owned_path working_dir path)) (base.read_file path);
    is_dir = λ path.
        kind_or (document_at docs (normalize_owned_path working_dir path)) (base.is_dir path);
    glob = λ pattern. base.glob pattern >>= λ found.
        add_matching pattern (add_cleaned [] found) (keys docs) >>= λ seen. ok (sort_strings seen);
  }
