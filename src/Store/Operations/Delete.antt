-- ===== src/Store/Operations/Delete.antt =====
-- What a deletion leaves of the file of the object.
use mergeway_cli.Prelude.{
  String, ◌≡◌, refl, true, false, some, ok, err, Result-cases, err-ne-ok, List, [], ◌∷◌, ap, sym,
  ◌∙◌, get_elem?, subst, inl, inr, Bool-cases, Option-cases, if_true, if_false,
}
use mergeway_cli.Value.Defs.{Fields}
use mergeway_cli.Config.Model.{TypeDefinition}
use mergeway_cli.Store.Defs.{FileContent, ObjectLocation, not_exist, Env, IsLawful, require_type}
use mergeway_cli.Store.Files.{Outcome, payload, remove_file}
use mergeway_cli.Store.Operations.{
  normalize_lookup_id, writable_location, remove_item, rest_written, delete_from, delete_at,
  delete_object,
}
use mergeway_cli.Store.Operations.Create.{reading-elim, Holds, write_file-ok}
use mergeway_cli.Store.Operations.Items.{
  IsRemoved, remove_item-IsRemoved, writable_location-in_range,
}

module _ (w : Env) where
  -- What is left of the object's file after a deletion: nothing, or the items without the object.
  pub data Removes (s : w.State) (loc : ObjectLocation) : Type 0 where
    gone : loc.multi ≡ false → w.read_file s loc.file_path ≡ err not_exist → Removes s loc
    last :
        (fc : FileContent)
        → loc.multi ≡ true
        → loc.file ≡ some fc
        → IsRemoved loc.index fc.items []
        → w.read_file s loc.file_path ≡ err not_exist
        → Removes s loc
    others :
        (fc : FileContent) (ms : List Fields)
        → loc.multi ≡ true
        → loc.file ≡ some fc
        → IsRemoved loc.index fc.items ms
        → Holds w s loc.file_path fc.format (some (payload w (record fc { items = ms })))
        → Removes s loc

  remove_file-ok :
      (s : w.State) (p : String)
      → IsLawful w
      → (remove_file w s p).1 ≡ ok tt
      → w.read_file (remove_file w s p).0 p ≡ err not_exist
  unfolding remove_file
  remove_file-ok s p laws h = elim (Result-cases (w.remove s p).1) [
    | inl u ↦ laws.read-remove s p u.1
    | inr e ↦ absurd (err-ne-ok (rw e.1 at h))
  ]

  rest_written-Removes :
      (s : w.State) (loc : ObjectLocation) (fc : FileContent) (ms : List Fields)
      → IsLawful w
      → loc.multi ≡ true
      → loc.file ≡ some fc
      → IsRemoved loc.index fc.items ms
      → (rest_written w s loc fc ms).1 ≡ ok tt
      → Removes (rest_written w s loc fc ms).0 loc
  rest_written-Removes s loc fc [] laws b f e h =
      last fc b f e (remove_file-ok s loc.file_path laws h)
  rest_written-Removes s loc fc (m ∷ ms) laws b f e h =
      others fc (m ∷ ms) b f e
        (write_file-ok w s loc.file_path (record fc { items = m ∷ ms }) laws h)

  delete_at-Removes :
      (s : w.State) (loc : ObjectLocation)
      → IsLawful w
      → ((fc : FileContent)
          → loc.multi ≡ true
          → loc.file ≡ some fc
          → (x : Fields) × (get_elem? fc.items loc.index ≡ some x))
      → (delete_at w s loc).1 ≡ ok tt
      → Removes (delete_at w s loc).0 loc
  unfolding delete_at
  delete_at-Removes s loc laws range h = elim (Bool-cases loc.multi) [
    | inr b ↦
        let e =
          if_false loc.multi (delete_from w s loc loc.file) (remove_file w s loc.file_path) b in
        gone b (
          subst (λ o. w.read_file o.0 loc.file_path ≡ err not_exist) (sym e)
            (remove_file-ok s loc.file_path laws (sym (ap (λ o. o.1) e) ∙ h)))
    | inl b ↦
        let e =
          if_true loc.multi (delete_from w s loc loc.file) (remove_file w s loc.file_path) b in
        elim (Option-cases loc.file) [
          | inl n ↦ absurd (err-ne-ok (rw n at (sym (ap (λ o. o.1) e) ∙ h)))
          | inr f ↦
              let e' = e ∙ ap (delete_from w s loc) f.1 in
              subst (λ o. Removes o.0 loc) (sym e')
                (rest_written-Removes s loc f.0 (remove_item f.0.items loc.index) laws b f.1
                  (remove_item-IsRemoved f.0.items loc.index (range f.0 b f.1).1)
                  (sym (ap (λ o. o.1) e') ∙ h))
        ]
  ]

  pub record Deleted (s : w.State) (type_name raw_id : String) (o : Outcome w.State (Unit {0}))
      : Type 0 where
    pub type_def : TypeDefinition
    pub id : String
    pub loc : ObjectLocation
    pub known : require_type w.config type_name ≡ ok type_def
    pub normal : normalize_lookup_id type_def raw_id ≡ ok id
    pub writable : writable_location w s type_name type_def id ≡ ok loc
    pub ends : o ≡ delete_at w s loc

  delete_object-Deleted :
      (s : w.State) (type_name raw_id : String)
      → (delete_object w s type_name raw_id).1 ≡ ok tt
      → Deleted s type_name raw_id (delete_object w s type_name raw_id)
  unfolding delete_object
  delete_object-Deleted s type_name raw_id h =
      let P = Deleted s type_name raw_id in
      reading-elim w P s (require_type w.config type_name) _
        (λ t k. reading-elim w P s (normalize_lookup_id t raw_id) _ (λ id n.
          reading-elim w P s (writable_location w s type_name t id) _ (λ loc p e. record {
            type_def = t;
            id = id;
            loc = loc;
            known = k;
            normal = n;
            writable = p;
            ends = refl;
          })))
        h

  -- Where a text that is written is read back, a removed file is missing and no operation changes what
  -- other paths read: a `Delete` that succeeds has removed the object: its file is gone, or holds
  -- the encoding of the content that it had without the item at the object's index.
  pub delete_object-Removes :
      (s : w.State) (type_name raw_id : String)
      → IsLawful w
      → (delete_object w s type_name raw_id).1 ≡ ok tt
      → (d : Deleted s type_name raw_id (delete_object w s type_name raw_id)) × Removes
          (delete_object w s type_name raw_id).0
          d.loc
  delete_object-Removes s type_name raw_id laws h =
      let d = delete_object-Deleted s type_name raw_id h in
      (
        d,
        subst (λ o. Removes o.0 d.loc) (sym d.ends)
            (delete_at-Removes s d.loc laws
              (λ fc. writable_location-in_range w s type_name d.type_def d.id fc d.writable)
              (sym (ap (λ o. o.1) d.ends) ∙ h)),
      )
