-- ===== src/Store/Operations/Frame.antt =====
-- Which files the operations of the store change.
use mergeway_cli.Prelude.{
  String, ◌≡◌, refl, ◌⊎◌, Bool, false, Option, Result, ok, err, Result-cases, List, [], ◌∷◌, ◌==◌,
  ap, ◌∙◌, inl, inr, Bool-cases, Option-cases, text-cases,
}
use mergeway_cli.Value.Defs.{Value, Fields}
use mergeway_cli.Config.Model.{TypeDefinition}
use mergeway_cli.Store.Defs.{
  MaybeMap, FileContent, ObjectLocation, CreateTarget, StoreError, Env, IsLawful, require_type,
}
use mergeway_cli.Store.Derived.{fields_with_derived_values, clean_fields_for_type}
use mergeway_cli.Store.Files.{
  Outcome, and_then, reading, load_file, write_single, write_file, choose_create_target,
}
use mergeway_cli.Store.Files.Laws.{write_single_frame, remove_file_frame}
use mergeway_cli.Store.Load.{unless_gone}
use mergeway_cli.Store.Operations.{
  normalize_lookup_id, writable_location, updated_fields, write_object, returned, update,
  rest_written, delete_at, delete_object, content_or_new, with_item, create_in, create_at,
  new_identifier, with_identifier, create, remove_item,
}

module _ (w : Env) where
  -- The file reads as before, or `P` holds.
  abbrev Same : String → w.State → w.State → Type 0 → Type 0
  Same q s s' P = (w.read_file s' q ≡ w.read_file s q) ⊎ P

  reading-Same :
      {A B P : Type 0} (s : w.State) (r : Result StoreError A) (f : A → Outcome w.State B)
      (q : String)
      → ((a : A) → r ≡ ok a → Same q s (f a).0 P)
      → Same q s (reading s r f).0 P
  reading-Same s (ok a) f q h = h a refl
  reading-Same s (err e) f q h = inl refl

  returned_state :
      (t : TypeDefinition) (id path : String) (m : MaybeMap) (s : w.State)
      → (returned w t id path m s).0 ≡ s
  returned_state t id path m s = elim (Result-cases (fields_with_derived_values w t path m)) [
    | inl r ↦ rw r.1 refl
    | inr e ↦ rw e.1 refl
  ]

  write_file_frame :
      (s : w.State) (p q : String) (fc : FileContent)
      → IsLawful w
      → (p == q) ≡ false
      → w.read_file (write_file w s p fc).0 q ≡ w.read_file s q
  unfolding write_file
  write_file_frame s p q fc laws n = write_single_frame w s p q fc.format _ laws n

  write_object_frame :
      (s : w.State) (loc : ObjectLocation) (m : MaybeMap) (q : String)
      → IsLawful w
      → (loc.file_path == q) ≡ false
      → w.read_file (write_object w s loc m).0 q ≡ w.read_file s q
  write_object_frame s loc m q laws n = elim (Bool-cases loc.multi) [
    | inr e ↦ rw e (write_single_frame w s loc.file_path q loc.format m laws n)
    | inl e ↦ elim (Option-cases loc.file) [
      | inl f ↦ rw (e, f) refl
      | inr f ↦ rw (e, f.1) (write_file_frame s loc.file_path q _ laws n)
    ]
  ]

  -- What comes after a write only reads.
  pub written_state :
      (o : Outcome w.State (Unit {0})) (t : TypeDefinition) (id path : String) (m : MaybeMap)
      → (and_then o λ written u. returned w t id path m written).0 ≡ o.0
  written_state (s, ok u) t id path m = returned_state t id path m s
  written_state (s, err e) t id path m = refl

  -- The place that `Update` and `Delete` change: that of the object with the identifier, declared
  -- exactly as the type.
  pub record IsPlace (s : w.State) (type_name raw_id path : String) : Type 0 where
    pub type_def : TypeDefinition
    pub id : String
    pub loc : ObjectLocation
    pub known : require_type w.config type_name ≡ ok type_def
    pub normal : normalize_lookup_id type_def raw_id ≡ ok id
    pub writable : writable_location w s type_name type_def id ≡ ok loc
    pub there : loc.file_path ≡ path

  at-IsPlace :
      {q : String} {s s' : w.State} {type_name raw_id : String} (t : TypeDefinition) (id : String)
      (loc : ObjectLocation)
      → require_type w.config type_name ≡ ok t
      → normalize_lookup_id t raw_id ≡ ok id
      → writable_location w s type_name t id ≡ ok loc
      → ((loc.file_path == q) ≡ false → w.read_file s' q ≡ w.read_file s q)
      → Same q s s' (IsPlace s type_name raw_id q)
  at-IsPlace {q} t id loc k n p h = elim (text-cases loc.file_path q) [
    | inl e ↦ inr (record {
      type_def = t;
      id = id;
      loc = loc;
      known = k;
      normal = n;
      writable = p;
      there = e;
    })
    | inr d ↦ inl (h d)
  ]

  -- Where a text that is written is read back, a removed file is missing and no operation changes what
  -- other paths read: `Update` changes no file but the one in which the object stands, on every
  -- branch, whether it succeeds or not.
  pub update_frame :
      (s : w.State) (type_name raw_id : String) (fields : MaybeMap) (merge : Bool) (q : String)
      → IsLawful w
      → (w.read_file (update w s type_name raw_id fields merge).0 q ≡ w.read_file s q)
        ⊎ IsPlace s type_name raw_id q
  unfolding update
  update_frame s type_name raw_id fields merge q laws =
      reading-Same s (require_type w.config type_name) _ q λ t k.
        reading-Same s (normalize_lookup_id t raw_id) _ q λ id n.
          reading-Same s (writable_location w s type_name t id) _ q λ loc p.
            reading-Same s (updated_fields w type_name t id loc fields merge) _ q λ m u.
              at-IsPlace t id loc k n p λ d.
                ap (λ r. w.read_file r q)
                  (written_state (write_object w s loc m) t id loc.file_path m)
                ∙ write_object_frame s loc m q laws d

  delete_at_frame :
      (s : w.State) (loc : ObjectLocation) (q : String)
      → IsLawful w
      → (loc.file_path == q) ≡ false
      → w.read_file (delete_at w s loc).0 q ≡ w.read_file s q
  unfolding delete_at
  delete_at_frame s loc q laws n = elim (Bool-cases loc.multi) [
    | inr e ↦ rw e (remove_file_frame w s loc.file_path q laws n)
    | inl e ↦ elim (Option-cases loc.file) [
      | inl f ↦ rw (e, f) refl
      | inr f ↦ rw (e, f.1) (delete_from_frame (remove_item f.0.items loc.index) f.0)
    ]
  ]
    where
      delete_from_frame :
          (ms : List Fields) (fc : FileContent)
          → w.read_file (rest_written w s loc fc ms).0 q ≡ w.read_file s q
      delete_from_frame [] fc = remove_file_frame w s loc.file_path q laws n
      delete_from_frame (m ∷ ms) fc = write_file_frame s loc.file_path q _ laws n

  -- Where a text that is written is read back, a removed file is missing and no operation changes what
  -- other paths read: `Delete` changes no file but the one in which the object stands, on every
  -- branch, whether it succeeds or not.
  pub delete_object_frame :
      (s : w.State) (type_name raw_id q : String)
      → IsLawful w
      → (w.read_file (delete_object w s type_name raw_id).0 q ≡ w.read_file s q)
        ⊎ IsPlace s type_name raw_id q
  unfolding delete_object
  delete_object_frame s type_name raw_id q laws =
      reading-Same s (require_type w.config type_name) _ q λ t k.
        reading-Same s (normalize_lookup_id t raw_id) _ q λ id n.
          reading-Same s (writable_location w s type_name t id) _ q
            λ loc p. at-IsPlace t id loc k n p λ d. delete_at_frame s loc q laws d

  -- The file that `Create` chooses: for a new identifier, one that no object of the type's hierarchy has.
  pub record IsTarget (s : w.State) (type_name : String) (fields : MaybeMap) (path : String)
      : Type 0 where
    pub type_def : TypeDefinition
    pub identifier : String × Value
    pub target : CreateTarget
    pub known : require_type w.config type_name ≡ ok type_def
    pub new : new_identifier w s type_name type_def fields ≡ ok identifier
    pub chosen : choose_create_target w type_def identifier.0 ≡ ok target
    pub there : target.path ≡ path

  create_at_frame :
      (t : TypeDefinition) (target : CreateTarget) (id : String) (m : MaybeMap)
      (doc : Option FileContent) (s : w.State) (q : String)
      → IsLawful w
      → (target.path == q) ≡ false
      → w.read_file (create_at w t target id m doc s).0 q ≡ w.read_file s q
  unfolding create_at
  create_at_frame t target id m doc s q laws n = elim (Bool-cases target.multi) [
    | inr e ↦ rw e (
        ap (λ r. w.read_file r q)
          (written_state (write_single w s target.path target.format m) t id target.path m)
        ∙ write_single_frame w s target.path q target.format m laws n)
    | inl e ↦ rw e (create_in_frame (content_or_new w t target doc))
  ]
    where
      create_in_frame :
          (fc : FileContent) → w.read_file (create_in w t target id m fc s).0 q ≡ w.read_file s q
      create_in_frame fc = elim (Bool-cases (fc.type_name == t.name)) [
        | inr e ↦ rw e refl
        | inl e ↦ rw e (
            ap (λ r. w.read_file r q)
              (written_state (write_file w s target.path (with_item w fc target.path m)) t id
                target.path m)
            ∙ write_file_frame s target.path q _ laws n)
      ]

  -- Where a text that is written is read back, a removed file is missing and no operation changes what
  -- other paths read: `Create` changes no file but the one that it chooses for the new identifier,
  -- on every branch, whether it succeeds or not.
  pub create_frame :
      (s : w.State) (type_name : String) (fields : MaybeMap) (q : String)
      → IsLawful w
      → (w.read_file (create w s type_name fields).0 q ≡ w.read_file s q)
        ⊎ IsTarget s type_name fields q
  unfolding create
  create_frame s type_name fields q laws =
      reading-Same s (require_type w.config type_name) _ q λ t k.
        reading-Same s (new_identifier w s type_name t fields) _ q λ p n.
          reading-Same s (choose_create_target w t p.0) _ q λ target c.
            reading-Same s (unless_gone w (load_file w s target.path t.name "")) _ q λ doc l.
              reading-Same s (with_identifier w t p.1 (clean_fields_for_type t fields)) _ q λ m i.
                elim (text-cases target.path q) [
                  | inl e ↦ inr (record {
                    type_def = t;
                    identifier = p;
                    target = target;
                    known = k;
                    new = n;
                    chosen = c;
                    there = e;
                  })
                  | inr d ↦ inl (create_at_frame t target p.0 m doc s q laws d)
                ]
