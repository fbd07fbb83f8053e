-- ===== src/Store/Operations/Faults.antt =====
-- Inputs for which the store loses an object, or writes one that it does not read again.
use mergeway_cli.Prelude.{
  String, ◌≡◌, refl, Bool, true, false, Option, none, some, ok, err, ok_inj, List, [], ◌∷◌, ◌++◌,
  ◌==◌, ap, sym, ◌∙◌, if_true, if_false, All,
}
use mergeway_cli.Go.Map.{Map}
use mergeway_cli.Value.Defs.{Value, Fields}
use mergeway_cli.Value.Maps.{find}
use mergeway_cli.Value.Scalar.{get_string}
use mergeway_cli.Value.Normalize.{ShapeError, to_slice_map}
use mergeway_cli.Config.Model.{
  TypeDefinition, IncludeDefinition, FieldDefinition, spec, is_path, is_path_derived,
}
use mergeway_cli.Config.PathSource.{derive_path_source_value}
use mergeway_cli.Store.Defs.{
  FileFormat, FileContent, CreateTarget, panics, shape_error, Env, IsLawful,
}
use mergeway_cli.Store.Paths.{sanitize_filename, relative_path_identifier}
use mergeway_cli.Store.Identifier.{derive_identifier}
use mergeway_cli.Store.Derived.{assign, derive_fields, fields_with_derived_values}
use mergeway_cli.Store.Files.{
  load_file, write_single, choose_create_target, include_target, abs_pattern, first_multi,
}
use mergeway_cli.Store.Files.Laws.{load_document_undeclared, write_single-ok}
use mergeway_cli.Store.Load.{item_identifier}
use mergeway_cli.Store.LoadAll.{load_object}

module _ (w : Env) where
  include_target-collision :
      (type_name a b : String) (multi : Option CreateTarget) (writable : Bool)
      (is : List IncludeDefinition)
      → sanitize_filename a ≡ sanitize_filename b
      → include_target w type_name a multi writable is
        ≡ include_target w type_name b multi writable is
  unfolding include_target
  include_target-collision type_name a b multi writable [] h = refl
  include_target-collision type_name a b multi writable (i ∷ is) h =
      rw
        (
          h,
          include_target-collision type_name a b multi writable is h,
          include_target-collision type_name a b multi true is h,
          include_target-collision type_name a b (first_multi w multi (abs_pattern w i.path)) true
              is h,
        )
        refl

  -- Two identifiers with the same sanitised file name get the same file: where the type's identifier
  -- is a field, `Create` puts an object named `a/b` where it has put one named `a-b`.
  pub choose_create_target-collision :
      (t : TypeDefinition) (a b : String)
      → is_path t.identifier ≡ false
      → sanitize_filename a ≡ sanitize_filename b
      → choose_create_target w t a ≡ choose_create_target w t b
  unfolding choose_create_target
  choose_create_target-collision t a b n h =
      if_false (is_path t.identifier) _ _ n
      ∙ (include_target-collision t.name a b none false t.include h
          ∙ sym (if_false (is_path t.identifier) _ _ n))

  -- A single object with a field `items` that is no array of objects is written, and then its file is
  -- refused.
  pub load_file_items :
      (s : w.State) (path type_name : String) (format : FileFormat) (m : Fields) (v : Value)
      {e : ShapeError} {text : String}
      → IsLawful w
      → (write_single w s path format (some m)).1 ≡ ok tt
      → w.encode format (some m) ≡ ok text
      → w.decode_map text ≡ ok (some m)
      → get_string w.floats m "type" ≡ none
      → find m "items" ≡ some v
      → to_slice_map v ≡ err e
      → load_file w (write_single w s path format (some m)).0 path type_name ""
        ≡ err (shape_error path e)
  unfolding load_file
  load_file_items s path type_name format m v {e} {text} laws wr en de ty it sh =
      let (t, en', rd) = write_single-ok w s path format (some m) laws wr in
      let same = rd ∙ ap ok (ok_inj (sym en' ∙ en)) in
      rw (same, de) (load_document_undeclared w path type_name (some m) ty ∙ rw (it, sh) refl)

  -- A path-derived field that can be computed, behind fields that are not derived, on a `nil` map: the
  -- write to the map panics.
  derive_fields-panics :
      (fs gs : Map FieldDefinition) (name path_id value : String) (f : FieldDefinition)
      → All (λ q. is_path_derived (spec q.1).source ≡ false) fs
      → is_path_derived (spec f).source ≡ true
      → derive_path_source_value (spec f).source path_id ≡ ok value
      → derive_fields (fs ++ (name, f) ∷ gs) path_id none ≡ err panics
  unfolding derive_fields assign
  derive_fields-panics [] gs name path_id value f n d v = rw (derive_fields, d, v) refl
  derive_fields-panics ((k, g) ∷ fs) gs name path_id value f n d v =
      rw (derive_fields, n.0) (derive_fields-panics fs gs name path_id value f n.1 d v)

  identified :
      (t : TypeDefinition) (fc : FileContent) (id : String)
      → is_path t.identifier ≡ true
      → relative_path_identifier true w.root fc.path ≡ ok id
      → item_identifier w t fc none ≡ ok id
  unfolding derive_identifier
  identified t fc id p r = rw (derive_identifier, if_true (is_path t.identifier) _ _ p, r) refl

  enriched :
      (t : TypeDefinition) (fc : FileContent) (fs gs : Map FieldDefinition) (name id value : String)
      (f : FieldDefinition)
      → (fc.path == "") ≡ false
      → relative_path_identifier true w.root fc.path ≡ ok id
      → t.fields ≡ fs ++ (name, f) ∷ gs
      → All (λ q. is_path_derived (spec q.1).source ≡ false) fs
      → is_path_derived (spec f).source ≡ true
      → derive_path_source_value (spec f).source id ≡ ok value
      → fields_with_derived_values w t fc.path none ≡ err panics
  unfolding fields_with_derived_values
  enriched t fc fs gs name id value f ne r same n d v =
      if_false (fc.path == "") _ _ ne
      ∙ rw r (
          ap (λ l. derive_fields l id none) same ∙ derive_fields-panics fs gs name id value f n d v)

  -- An empty file of a type whose identifier is the path, and that has a field derived from the path,
  -- makes loading its object panic.
  pub load_object-panics :
      (t : TypeDefinition) (fc : FileContent) (fs gs : Map FieldDefinition) (name id value : String)
      (f : FieldDefinition)
      → is_path t.identifier ≡ true
      → (fc.path == "") ≡ false
      → relative_path_identifier true w.root fc.path ≡ ok id
      → t.fields ≡ fs ++ (name, f) ∷ gs
      → All (λ q. is_path_derived (spec q.1).source ≡ false) fs
      → is_path_derived (spec f).source ≡ true
      → derive_path_source_value (spec f).source id ≡ ok value
      → load_object w t fc none ≡ err panics
  unfolding load_object
  load_object-panics t fc fs gs name id value f p ne r same n d v =
      rw (identified t fc id p r, enriched t fc fs gs name id value f ne r same n d v) refl
