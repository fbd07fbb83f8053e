-- ===== src/Diff/Database.antt =====
-- `diffLogicalDatabases` of internal/diff/diff_semantic.go, on the objects of two snapshots.
pub mod Laws
use Prim.Native.String
use mergeway_cli.Prelude.{
  ℕ, String, ◌≡◌, refl, Bool, true, false, not, Option, none, some, List, [], ◌∷◌, ◌++◌, ◌==◌, ◌&&◌,
  Result, ok, err, ◌>>=◌, if◌then◌else◌, member, eqb, length,
}
use mergeway_cli.Go.Map.{Map, get, put, keys}
use mergeway_cli.Go.Order.{sort_strings}
use mergeway_cli.Value.Defs.{Value, Fields}
use mergeway_cli.Value.Maps.{clone_map}
use mergeway_cli.Diff.Canonical.{MarshalError}
use mergeway_cli.Diff.Fields.{DiffFieldChange, diff_object_fields, union_keys}

pub record LogicalObjectSource : Type 0 where
  pub path : String
  pub selector : String
  pub read_only : Bool

pub record LogicalObject : Type 0 where
  pub type_name : String
  pub id : String
  pub fields : Fields
  pub canonical : String
  pub sources : List LogicalObjectSource

pub data DiffEntryKind : Type 0 where
  added removed modified relocated : DiffEntryKind

-- A map that an entry leaves `nil` is `none`.
pub record DiffEntry : Type 0 where
  pub kind : DiffEntryKind
  pub type_name : String
  pub object_id : String
  pub old_value : Option Fields
  pub new_value : Option Fields
  pub field_changes : List DiffFieldChange
  pub old_sources : List LogicalObjectSource
  pub new_sources : List LogicalObjectSource

-- `logicalObjectMapKey`
abbrev pub object_key : String → String → String
object_key type_name id = String.◌++◌ type_name (String.◌++◌ "\0" id)

-- The loop of `logicalObjectsByKey`; a later object replaces an earlier one of its key.
unfoldable pub add_objects : Map LogicalObject → List LogicalObject → Map LogicalObject
add_objects objects [] = objects
add_objects objects (o ∷ os) = add_objects (put objects (object_key o.type_name o.id) o) os

-- `logicalObjectsByKey`
unfoldable pub logical_objects_by_key : List LogicalObject → Map LogicalObject
logical_objects_by_key objects = add_objects [] objects

abbrev text_of : Bool → String
text_of true = "true"
text_of false = "false"

abbrev source_keys_of : List LogicalObjectSource → List String
source_keys_of [] = []
source_keys_of (s ∷ ss) =
    String.◌++◌ s.path
      (String.◌++◌ "\0" (String.◌++◌ s.selector (String.◌++◌ "\0" (text_of s.read_only))))
    ∷ source_keys_of ss

-- `logicalSourceKeys`
unfoldable pub logical_source_keys : List LogicalObjectSource → List String
logical_source_keys sources = sort_strings (source_keys_of sources)

-- the comparison of the keys, one by one, of two lists that are equally long
unfoldable pub same_keys : List String → List String → Bool
same_keys [] ys = true
same_keys (x ∷ xs) [] = false
same_keys (x ∷ xs) (y ∷ ys) = if x == y then same_keys xs ys else false

-- `semanticSourcesEqual`
unfoldable pub semantic_sources_equal : List LogicalObjectSource → List LogicalObjectSource → Bool
semantic_sources_equal left right =
    if not (eqb (length left) (length right))
    then false
    else if eqb (length left) 0
    then true
    else same_keys (logical_source_keys left) (logical_source_keys right)

abbrev pub removed_entry : LogicalObject → DiffEntry
removed_entry l = record {
  kind = removed;
  type_name = l.type_name;
  object_id = l.id;
  old_value = some (clone_map l.fields);
  new_value = none;
  field_changes = [];
  old_sources = l.sources;
  new_sources = [];
}

abbrev pub added_entry : LogicalObject → DiffEntry
added_entry r = record {
  kind = added;
  type_name = r.type_name;
  object_id = r.id;
  old_value = none;
  new_value = some (clone_map r.fields);
  field_changes = [];
  old_sources = [];
  new_sources = r.sources;
}

abbrev pub paired_entry :
    DiffEntryKind → LogicalObject → LogicalObject → List DiffFieldChange → DiffEntry
paired_entry kind l r changes = record {
  kind = kind;
  type_name = l.type_name;
  object_id = l.id;
  old_value = some (clone_map l.fields);
  new_value = some (clone_map r.fields);
  field_changes = changes;
  old_sources = l.sources;
  new_sources = r.sources;
}

-- the entry of an object that both snapshots have
unfoldable pub paired : LogicalObject → LogicalObject → List DiffFieldChange → List DiffEntry
paired l r [] =
    if semantic_sources_equal l.sources r.sources then [] else paired_entry relocated l r [] ∷ []
paired l r (c ∷ cs) = paired_entry modified l r (c ∷ cs) ∷ []

pub data DiffError : Type 0 where
  compare_failed : String → String → MarshalError → DiffError

-- the error of the comparison of an object's fields, with the object
abbrev pub comparing : {A : Type 0} → LogicalObject → Result MarshalError A → Result DiffError A
comparing l (ok a) = ok a
comparing l (err e) = err (compare_failed l.type_name l.id e)

module _ (marshal : Value → Result MarshalError String) where
  -- The body of the loop over the keys: the entries that it appends.
  unfoldable pub entries_of :
      Option LogicalObject → Option LogicalObject → Result DiffError (List DiffEntry)
  entries_of none none = ok []
  entries_of (some l) none = ok (removed_entry l ∷ [])
  entries_of none (some r) = ok (added_entry r ∷ [])
  entries_of (some l) (some r) =
      comparing l (diff_object_fields marshal "" l.fields r.fields) >>= λ changes.
      ok (paired l r changes)

  unfoldable pub entries_for :
      Map LogicalObject → Map LogicalObject → List String → Result DiffError (List DiffEntry)
  entries_for left right [] = ok []
  entries_for left right (key ∷ keys) = entries_of (get left key) (get right key) >>= λ entries.
      entries_for left right keys >>= λ rest. ok (entries ++ rest)

  -- `diffLogicalDatabases`
  unfoldable pub diff_logical_databases :
      List LogicalObject → List LogicalObject → Result DiffError (List DiffEntry)
  diff_logical_databases left right =
      let l = logical_objects_by_key left in
      let r = logical_objects_by_key right in entries_for l r (union_keys (keys l) (keys r))
