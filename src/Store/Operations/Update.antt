-- ===== src/Store/Operations/Update.antt =====
-- The guards of `Update` and `Delete`, and what an update leaves in the file of the object.
use mergeway_cli.Prelude.{
  String, ◌≡◌, refl, Bool, true, false, ◌||◌, some, ok, err, err-ne-ok, List, arith, ap, sym, ◌∙◌,
  get_elem?, subst, inl, inr, Bool-cases, Option-cases, if_true, if_false,
}
use mergeway_cli.Value.Defs.{Fields}
use mergeway_cli.Config.Model.{TypeDefinition}
use mergeway_cli.Store.Defs.{
  MaybeMap, contents, clone_maybe, FileContent, Object, ObjectLocation, StoreError, is_inline,
  is_selected, Env, IsLawful, require_type,
}
use mergeway_cli.Store.Files.{Outcome, and_then, write_single, write_file, payload}
use mergeway_cli.Store.Files.Laws.{write_single-ok}
use mergeway_cli.Store.Load.Laws.{clone_maybe_lem}
use mergeway_cli.Store.Load.{find_exact_object}
use mergeway_cli.Store.Operations.Frame.{written_state}
use mergeway_cli.Store.Operations.{
  normalize_lookup_id, writable_location, updated_fields, set_item, write_items, write_object,
  returned, update, delete_object,
}
use mergeway_cli.Store.Operations.Create.{reading-elim, written-ok, Holds, write_file-ok}
use mergeway_cli.Store.Operations.Items.{
  IsReplaced, set_item-IsReplaced, writable_location-in_range,
}

module _ (w : Env) where
  -- The error for an object that cannot be changed.
  abbrev pub guard_error : Bool → String → String → StoreError
  guard_error true type_name id = is_inline type_name id
  guard_error false type_name id = is_selected type_name id

  writable_location-guarded :
      (s : w.State) (type_name : String) (t : TypeDefinition) (id : String) (loc : ObjectLocation)
      → find_exact_object w s t id ≡ ok (some loc)
      → (loc.inline || loc.read_only) ≡ true
      → writable_location w s type_name t id ≡ err (guard_error loc.inline type_name id)
  unfolding writable_location
  writable_location-guarded s type_name t id loc f g = rw f (ground (arith, g))

  -- `Update` and `Delete` refuse an object that is defined inline or found by a selector, and leave the
  -- files as they are.
  pub update-guarded :
      (s : w.State) (type_name raw_id : String) (fields : MaybeMap) (merge : Bool)
      (t : TypeDefinition) (id : String) (loc : ObjectLocation)
      → require_type w.config type_name ≡ ok t
      → normalize_lookup_id t raw_id ≡ ok id
      → find_exact_object w s t id ≡ ok (some loc)
      → (loc.inline || loc.read_only) ≡ true
      → (update w s type_name raw_id fields merge ≡ (s, err (guard_error loc.inline type_name id)))
        × (delete_object w s type_name raw_id ≡ (s, err (guard_error loc.inline type_name id)))
  unfolding update delete_object
  update-guarded s type_name raw_id fields merge t id loc k n f g = (
    rw (k, n, writable_location-guarded s type_name t id loc f g) refl,
    rw (k, n, writable_location-guarded s type_name t id loc f g) refl,
  )

  -- An `Update` that succeeds: each of its steps, and its outcome.
  pub record Updated (s : w.State) (type_name raw_id : String) (fields : MaybeMap) (merge : Bool)
      (o : Outcome w.State Object) : Type 0 where
    pub type_def : TypeDefinition
    pub id : String
    pub loc : ObjectLocation
    pub map : MaybeMap
    pub known : require_type w.config type_name ≡ ok type_def
    pub normal : normalize_lookup_id type_def raw_id ≡ ok id
    pub writable : writable_location w s type_name type_def id ≡ ok loc
    pub computed : updated_fields w type_name type_def id loc fields merge ≡ ok map
    pub ends : o ≡ (
        and_then
          (write_object w s loc map)
          λ written u. returned w type_def id loc.file_path map written)

  pub update-Updated :
      (s : w.State) (type_name raw_id : String) (fields : MaybeMap) (merge : Bool) {o : Object}
      → (update w s type_name raw_id fields merge).1 ≡ ok o
      → Updated s type_name raw_id fields merge (update w s type_name raw_id fields merge)
  unfolding update
  update-Updated s type_name raw_id fields merge h =
      let P = Updated s type_name raw_id fields merge in
      reading-elim w P s (require_type w.config type_name) _
        (λ t k. reading-elim w P s (normalize_lookup_id t raw_id) _ (λ id n.
          reading-elim w P s (writable_location w s type_name t id) _ (λ loc p.
            reading-elim w P s (updated_fields w type_name t id loc fields merge) _ (λ m c e.
              record {
                type_def = t;
                id = id;
                loc = loc;
                map = m;
                known = k;
                normal = n;
                writable = p;
                computed = c;
                ends = refl;
              }))))
        h

  -- What is in the object's file after an update: the object's map alone, or the items with the map in
  -- the place of the old one.
  pub data Replaces (s : w.State) (loc : ObjectLocation) (m : MaybeMap) : Type 0 where
    alone : loc.multi ≡ false → Holds w s loc.file_path loc.format m → Replaces s loc m
    among :
        (fc : FileContent) (ms : List Fields)
        → loc.multi ≡ true
        → loc.file ≡ some fc
        → IsReplaced (contents m) loc.index fc.items ms
        → Holds w s loc.file_path fc.format (some (payload w (record fc { items = ms })))
        → Replaces s loc m

  several : w.State → ObjectLocation → MaybeMap → Outcome w.State (Unit {0})
  several s loc m =
      write_items w s loc loc.file (λ xs. set_item xs loc.index (contents (clone_maybe m)))

  several_at :
      (s : w.State) (loc : ObjectLocation) (m : MaybeMap) (fc : FileContent)
      → loc.file ≡ some fc
      → several s loc m
        ≡ write_file w s loc.file_path
            (record fc { items = set_item fc.items loc.index (contents m) })
  unfolding several
  several_at s loc m fc f =
      ap (λ c. write_items w s loc loc.file (λ xs. set_item xs loc.index (contents c)))
        (clone_maybe_lem m)
      ∙ ap (λ l. write_items w s loc l (λ xs. set_item xs loc.index (contents m))) f

  write_object-Replaces :
      (s : w.State) (loc : ObjectLocation) (m : MaybeMap)
      → IsLawful w
      → ((fc : FileContent)
          → loc.multi ≡ true
          → loc.file ≡ some fc
          → (x : Fields) × (get_elem? fc.items loc.index ≡ some x))
      → (write_object w s loc m).1 ≡ ok tt
      → Replaces (write_object w s loc m).0 loc m
  unfolding several
  write_object-Replaces s loc m laws range h = elim (Bool-cases loc.multi) [
    | inr b ↦
        let e =
          if_false loc.multi (several s loc m) (write_single w s loc.file_path loc.format m) b in
        alone b (
          subst (λ o. Holds w o.0 loc.file_path loc.format m) (sym e)
            (write_single-ok w s loc.file_path loc.format m laws (sym (ap (λ o. o.1) e) ∙ h)))
    | inl b ↦
        let e =
          if_true loc.multi (several s loc m) (write_single w s loc.file_path loc.format m) b in
        elim (Option-cases loc.file) [
          | inl n ↦ absurd (err-ne-ok (rw n at (sym (ap (λ o. o.1) e) ∙ h)))
          | inr f ↦
              let e' = e ∙ several_at s loc m f.0 f.1 in
              among f.0 _ b f.1
                (set_item-IsReplaced f.0.items loc.index (contents m) (range f.0 b f.1).1)
                (subst
                  (λ o. Holds w o.0 loc.file_path f.0.format (
                    some (
                      payload w
                        (record f.0 { items = set_item f.0.items loc.index (contents m) }))))
                  (sym e') (write_file-ok w s loc.file_path _ laws (sym (ap (λ o. o.1) e') ∙ h)))
        ]
  ]

  -- Where a text that is written is read back, a removed file is missing and no operation changes what
  -- other paths read: an `Update` that succeeds has written the object: its file holds the encoding
  -- of the new map alone, or of the content that it had with the new map in the place of the item at
  -- the object's index.
  pub update-Replaces :
      (s : w.State) (type_name raw_id : String) (fields : MaybeMap) (merge : Bool) {o : Object}
      → IsLawful w
      → (update w s type_name raw_id fields merge).1 ≡ ok o
      → (u : Updated s type_name raw_id fields merge (update w s type_name raw_id fields merge))
        × Replaces (update w s type_name raw_id fields merge).0 u.loc u.map
  update-Replaces s type_name raw_id fields merge laws h =
      let u = update-Updated s type_name raw_id fields merge h in
      let o = write_object w s u.loc u.map in
      let written =
        written-ok w o u.type_def u.id u.loc.file_path u.map (sym (ap (λ r. r.1) u.ends) ∙ h) in
      (
        u,
        subst (λ r. Replaces r u.loc u.map)
            (sym (ap (λ r. r.0) u.ends ∙ written_state w o u.type_def u.id u.loc.file_path u.map))
            (write_object-Replaces s u.loc u.map laws
              (λ fc. writable_location-in_range w s type_name u.type_def u.id fc u.writable)
              written),
      )
