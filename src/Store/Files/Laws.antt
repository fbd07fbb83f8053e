-- ===== src/Store/Files/Laws.antt =====
-- What a write leaves, and what reading makes of it.
use mergeway_cli.Prelude.{
  String, ◌≡◌, refl, ◌≢◌, true, false, none, some, ok, Result-cases, err-ne-ok, List, [], ◌∷◌, ◌==◌,
  arith, eq_iff, ap, ◌∙◌, inl, inr, ne→not-eq,
}
use mergeway_cli.Go.FilePath.{dir}
use mergeway_cli.Value.Defs.{str, arr, Fields, end, field}
use mergeway_cli.Value.Maps.{find, set, delete, clone_map_lem}
use mergeway_cli.Value.Scalar.{as_string, get_string}
use mergeway_cli.Value.Normalize.{to_slice_map, objects_of}
use mergeway_cli.Store.Defs.{MaybeMap, contents, FileFormat, FileContent, Env, IsLawful}
use mergeway_cli.Store.Paths.{detect_format}
use mergeway_cli.Store.Derived.{delete_key}
use mergeway_cli.Store.Files.{
  differs, document_content, write_single, remove_file, payload, item_values, load_document,
}

module _ (w : Env) where
  -- A write leaves all other files as they are, whether it succeeds or not.
  pub write_single_frame :
      (s : w.State) (p q : String) (f : FileFormat) (m : MaybeMap)
      → IsLawful w
      → (p == q) ≡ false
      → w.read_file (write_single w s p f m).0 q ≡ w.read_file s q
  unfolding write_single
  write_single_frame s p q f m laws n = elim (Result-cases (w.make_dir s (dir p)).1) [
    | inr e ↦ rw e.1 (laws.read-make_dir s (dir p) q)
    | inl made ↦ elim (Result-cases (w.encode f m)) [
      | inr e ↦ rw (made.1, e.1) (laws.read-make_dir s (dir p) q)
      | inl text ↦
          rw (made.1, text.1)
            (laws.read-write_text_ne (w.make_dir s (dir p)).0 p q text.0 n
              ∙ laws.read-make_dir s (dir p) q)
    ]
  ]

  -- A write that succeeds leaves the text of its map in the file.
  pub write_single-ok :
      (s : w.State) (p : String) (f : FileFormat) (m : MaybeMap) {u : Unit {0}}
      → IsLawful w
      → (write_single w s p f m).1 ≡ ok u
      → (text : String) × (w.encode f m ≡ ok text)
        × (w.read_file (write_single w s p f m).0 p ≡ ok text)
  unfolding write_single
  write_single-ok s p f m laws h = elim (Result-cases (w.make_dir s (dir p)).1) [
    | inr e ↦ absurd (err-ne-ok (rw e.1 at h))
    | inl made ↦ elim (Result-cases (w.encode f m)) [
      | inr e ↦ absurd (err-ne-ok (rw (made.1, e.1) at h))
      | inl text ↦ elim (Result-cases (w.write_text (w.make_dir s (dir p)).0 p text.0).1) [
        | inr e ↦ absurd (err-ne-ok (rw (made.1, text.1, e.1) at h))
        | inl u ↦ (
          text.0,
          text.1,
          rw (made.1, text.1) (laws.read-write_text (w.make_dir s (dir p)).0 p text.0 u.1),
        )
      ]
    ]
  ]

  pub remove_file_frame :
      (s : w.State) (p q : String)
      → IsLawful w
      → (p == q) ≡ false
      → w.read_file (remove_file w s p).0 q ≡ w.read_file s q
  unfolding remove_file
  remove_file_frame s p q laws n = laws.read-remove_ne s p q n

  -- The payload of several objects under the name of their type.
  abbrev pub several_content : String → String → List Fields → FileContent
  several_content path type_name ms = record {
    path = path;
    type_name = type_name;
    format = detect_format path;
    multi = true;
    single = none;
    items = ms;
    selector = "";
    read_only = false;
  }

  objects_of-item_values : (ms : List Fields) → objects_of (item_values w ms) ≡ ok ms
  unfolding objects_of
  objects_of-item_values [] = refl
  objects_of-item_values (m ∷ ms) = rw (objects_of-item_values ms, clone_map_lem m) refl

  differs_self : (a : String) → differs a a ≡ false
  differs_self a = ground (arith, eq_iff a a)

  typed_items : String → List Fields → Fields
  typed_items type_name ms =
      field "type" (str type_name) (field "items" (arr (item_values w ms)) end)

  payload_several :
      (path type_name : String) (ms : List Fields)
      → (type_name == "") ≡ false
      → payload w (several_content path type_name ms) ≡ typed_items type_name ms
  unfolding payload set typed_items
  payload_several path type_name ms n = rw n refl

  get_string-typed :
      (type_name : String) (m : Fields)
      → (type_name == "") ≡ false
      → get_string w.floats (field "type" (str type_name) m) "type" ≡ some type_name
  unfolding get_string as_string find
  get_string-typed type_name m n = rw n refl

  items_read :
      (path type_name : String) (ms : List Fields)
      → document_content path type_name
          (detect_format path)
          (delete_key (some (typed_items type_name ms)) "type")
          (find (contents (delete_key (some (typed_items type_name ms)) "type")) "items")
        ≡ ok (several_content path type_name ms)
  unfolding delete find to_slice_map typed_items
  items_read path type_name ms = rw (objects_of-item_values ms) refl

  -- A document that names the expected type is read as that type's, without the name.
  pub load_document_declared :
      (path type_name : String) (doc : MaybeMap)
      → get_string w.floats (contents doc) "type" ≡ some type_name
      → (type_name == "") ≡ false
      → load_document w path type_name doc
        ≡ document_content path type_name
            (detect_format path)
            (delete_key doc "type")
            (find (contents (delete_key doc "type")) "items")
  unfolding load_document
  load_document_declared path type_name doc h n = ground (arith, h, n, eq_iff type_name type_name)

  -- A document that names no type is read as the expected type's.
  pub load_document_undeclared :
      (path type_name : String) (doc : MaybeMap)
      → get_string w.floats (contents doc) "type" ≡ none
      → load_document w path type_name doc
        ≡ document_content path type_name (detect_format path) doc (find (contents doc) "items")
  unfolding load_document
  load_document_undeclared path type_name doc h =
      rw (load_document, h) (ground (arith, eq_iff type_name type_name))

  -- What `writeFile` writes of several objects is what `loadFile` makes of the document.
  pub load_document-payload :
      (path type_name : String) (ms : List Fields)
      → type_name ≢ ""
      → load_document w path type_name (some (payload w (several_content path type_name ms)))
        ≡ ok (several_content path type_name ms)
  unfolding typed_items
  load_document-payload path type_name ms n =
      let ne = ne→not-eq type_name "" n in
      ap (λ m. load_document w path type_name (some m)) (payload_several path type_name ms ne)
      ∙ (load_document_declared path type_name (some (typed_items type_name ms))
            (get_string-typed type_name (field "items" (arr (item_values w ms)) end) ne) ne
          ∙ items_read path type_name ms)
