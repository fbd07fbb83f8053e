-- ===== src/Store/Defs.antt =====
-- internal/data/model.go, and what the store asks of the file system and of the libraries.
use mergeway_cli.Prelude.{
  ℕ, String, ◌≡◌, Bool, false, Option, none, some, List, Result, ok, err, ◌==◌,
}
use mergeway_cli.Go.Int.{ℤ}
use mergeway_cli.Go.Map.{get}
use mergeway_cli.Value.Defs.{Value, Fields, end}
use mergeway_cli.Value.Maps.{clone_map}
use mergeway_cli.Value.Normalize.{ShapeError}
use mergeway_cli.Value.Scalar.{FloatFormat}
use mergeway_cli.Config.Model.{TypeDefinition, Config}
use mergeway_cli.Config.PathSource.{PathSourceError}

-- `fileFormat`
pub data FileFormat : Type 0 where
  format_yaml format_json : FileFormat

-- A Go map that may be `nil`.
abbrev pub MaybeMap : Type 0
MaybeMap = Option Fields

-- the entries of a map that may be `nil`
abbrev pub contents : MaybeMap → Fields
contents none = end
contents (some m) = m

-- `cloneMap` of a map that may be `nil`
abbrev pub clone_maybe : MaybeMap → MaybeMap
clone_maybe none = none
clone_maybe (some m) = some (clone_map m)

pub record Object : Type 0 where
  pub type_name : String
  pub id : String
  pub fields : MaybeMap
  pub file : String
  pub inline : Bool
  pub read_only : Bool

pub record FileContent : Type 0 where
  pub path : String
  pub type_name : String
  pub format : FileFormat
  pub multi : Bool
  pub single : MaybeMap
  pub items : List Fields
  pub selector : String
  pub read_only : Bool

-- `objectLocation`; the index -1 of an inline object is never read, and is 0 here.
pub record ObjectLocation : Type 0 where
  pub file_path : String
  pub format : FileFormat
  pub multi : Bool
  pub index : ℕ
  pub id : String
  pub object : MaybeMap
  pub file : Option FileContent
  pub type_name : String
  pub inline : Bool
  pub read_only : Bool

pub record CreateTarget : Type 0 where
  pub path : String
  pub format : FileFormat
  pub multi : Bool

-- The errors of the operating system, of which the store knows a missing file.
pub data FileError : Type 0 where
  not_exist : FileError
  other_error : String → FileError

-- The errors of the store, with what their messages are made of. `panics` is the run-time panic at a
-- write to a `nil` map.
pub data StoreError : Type 0 where
  file_error : String → FileError → StoreError
  parse_error : String → String → StoreError
  encode_error : String → String → StoreError
  shape_error : String → ShapeError → StoreError
  unknown_type : String → StoreError
  id_required : StoreError
  identifier_not_configured : StoreError
  missing_field : String → StoreError
  not_text : String → StoreError
  not_integer : String → StoreError
  not_number : String → StoreError
  not_relative : StoreError
  outside_root : StoreError
  not_file_backed : StoreError
  unresolved_path : String → StoreError
  declares_other_type : String → String → String → StoreError
  selector_error : String → String → String → StoreError
  node_error : String → String → String → ShapeError → StoreError
  node_declares : String → String → String → String → String → StoreError
  matched_nothing : String → String → StoreError
  several_objects : String → String → StoreError
  derive_error : String → PathSourceError → StoreError
  in_file : String → String → StoreError → StoreError
  inline_item : String → ℕ → StoreError → StoreError
  in_create in_update : String → StoreError → StoreError
  glob_error : String → String → StoreError
  duplicate_in_hierarchy : String → String → String → String → String → String → StoreError
  no_target only_selectors : String → StoreError
  no_matching_include : String → String → StoreError
  not_found already_exists : String → String → StoreError
  is_inline is_selected outside_workspace : String → String → StoreError
  panics : StoreError

-- What the store uses and is not part of it: the operating system, on the files as its state; the
-- decoders, the encoders and the paths into documents; the numbers of Go. The configuration and
-- the root are the fields of `Store`; the root is absolute.
pub record Env : Type 1 where
  pub State : Type 0
  pub read_file : State → String → Result FileError String
  pub is_dir : State → String → Result FileError Bool
  pub glob : State → String → Result String (List String)
  pub make_dir : State → String → State × Result FileError (Unit {0})
  pub write_text : State → String → String → State × Result FileError (Unit {0})
  pub remove : State → String → State × Result FileError (Unit {0})
  pub glob_match : String → String → Result String Bool
  pub decode_map : String → Result String MaybeMap
  pub decode : String → Result String Value
  pub encode : FileFormat → MaybeMap → Result String String
  pub select : String → Value → Result String (List (String × Value))
  pub parse_float : String → Option ℕ
  pub float_of_int : ℤ → ℕ
  pub is_integral : ℕ → Bool
  pub int64_of_float : ℕ → ℤ
  pub floats : FloatFormat
  pub root : String
  pub config : Config

-- What holds of the files: a text that is written is read back, a removed file is missing, and no
-- operation changes what other paths read. Paths that name one file in two ways are left out.
pub record IsLawful (w : Env) : Type 0 where
  pub read-write_text :
      (s : w.State) (p t : String)
      → (w.write_text s p t).1 ≡ ok tt
      → w.read_file (w.write_text s p t).0 p ≡ ok t
  pub read-write_text_ne :
      (s : w.State) (p q t : String)
      → (p == q) ≡ false
      → w.read_file (w.write_text s p t).0 q ≡ w.read_file s q
  pub read-remove :
      (s : w.State) (p : String)
      → (w.remove s p).1 ≡ ok tt
      → w.read_file (w.remove s p).0 p ≡ err not_exist
  pub read-remove_ne :
      (s : w.State) (p q : String)
      → (p == q) ≡ false
      → w.read_file (w.remove s p).0 q ≡ w.read_file s q
  pub read-make_dir :
      (s : w.State) (d q : String) → w.read_file (w.make_dir s d).0 q ≡ w.read_file s q

-- `(*objectLocation).cloneObject` and `(*Object).clone`
abbrev pub clone_location : ObjectLocation → Object
clone_location l = record {
  type_name = l.type_name;
  id = l.id;
  fields = clone_maybe l.object;
  file = l.file_path;
  inline = l.inline;
  read_only = l.read_only;
}

abbrev pub clone_object : Object → Object
clone_object o = record o { fields = clone_maybe o.fields }

-- `requireType`
unfoldable pub require_type : Config → String → Result StoreError TypeDefinition
require_type c name = elim (get c.types name) [ none ↦ err (unknown_type name) | some t ↦ ok t ]
