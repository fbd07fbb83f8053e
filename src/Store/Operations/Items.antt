-- ===== src/Store/Operations/Items.antt =====
-- An item of a file that is replaced or removed, as the assignments to `loc.File.Items` in
-- internal/data/store_ops.go do, and the place of an object that may be changed.
use mergeway_cli.Prelude.{
  ℕ, zero, suc, String, ◌≡◌, true, false, Option, none, some, ok, ◌>>=◌, >>=-eq-ok, ok_inj,
  err-ne-ok, List, [], ◌∷◌, ap, sym, ◌∙◌, subst, inl, inr, Bool-cases, if_true, if_false, get_elem?,
  arith,
}
use mergeway_cli.Value.Defs.{Fields}
use mergeway_cli.Config.Model.{TypeDefinition}
use mergeway_cli.Store.Defs.{FileContent, ObjectLocation, Env}
use mergeway_cli.Store.Load.{find_exact_object}
use mergeway_cli.Store.Load.Laws.{
  IsFound, in_content, inline_object, Stands, find_exact_object-IsFound,
}
use mergeway_cli.Store.Operations.{
  set_item, remove_item, writable_location, or_not_found, ensure_writable,
}

-- The second list is the first with the map in the place of the item at the index.
pub data IsReplaced (m : Fields) : ℕ → List Fields → List Fields → Type 0 where
  replaced_here : {x : Fields} {xs : List Fields} → IsReplaced m zero (x ∷ xs) (m ∷ xs)
  replaced_later :
      {i : ℕ} {x : Fields} {xs ys : List Fields}
      → IsReplaced m i xs ys
      → IsReplaced m (suc i) (x ∷ xs) (x ∷ ys)

-- The second list is the first without the item at the index.
pub data IsRemoved : ℕ → List Fields → List Fields → Type 0 where
  removed_here : {x : Fields} {xs : List Fields} → IsRemoved zero (x ∷ xs) xs
  removed_later :
      {i : ℕ} {x : Fields} {xs ys : List Fields}
      → IsRemoved i xs ys
      → IsRemoved (suc i) (x ∷ xs) (x ∷ ys)

none-ne-some : {x : Fields} → none ≡ some x → ⊥
none-ne-some h = cc

pub set_item-IsReplaced :
    (xs : List Fields) (i : ℕ) (m : Fields) {x : Fields}
    → get_elem? xs i ≡ some x
    → IsReplaced m i xs (set_item xs i m)
unfolding set_item
set_item-IsReplaced [] i m h = absurd (none-ne-some h)
set_item-IsReplaced (y ∷ xs) zero m h = replaced_here
set_item-IsReplaced (y ∷ xs) (suc i) m h = replaced_later (set_item-IsReplaced xs i m h)

pub remove_item-IsRemoved :
    (xs : List Fields) (i : ℕ) {x : Fields}
    → get_elem? xs i ≡ some x
    → IsRemoved i xs (remove_item xs i)
unfolding remove_item
remove_item-IsRemoved [] i h = absurd (none-ne-some h)
remove_item-IsRemoved (y ∷ xs) zero h = removed_here
remove_item-IsRemoved (y ∷ xs) (suc i) h = removed_later (remove_item-IsRemoved xs i h)

content_inj : {a b : FileContent} → some a ≡ some b → a ≡ b
content_inj h = cc

location_inj : {a b : ObjectLocation} → some a ≡ some b → a ≡ b
location_inj h = cc

or_not_found-some :
    (type_name id : String) (found : Option ObjectLocation) {loc : ObjectLocation}
    → or_not_found type_name id found ≡ ok loc
    → found ≡ some loc
or_not_found-some type_name id none h = absurd (err-ne-ok h)
or_not_found-some type_name id (some loc) h = ap some (ok_inj h)

module _ (w : Env) where
  -- A location that the guards let through was found, and is not inline.
  pub writable_location-found :
      (s : w.State) (type_name : String) (t : TypeDefinition) (id : String) {loc : ObjectLocation}
      → writable_location w s type_name t id ≡ ok loc
      → (find_exact_object w s t id ≡ ok (some loc)) × (loc.inline ≡ false)
  unfolding writable_location
  writable_location-found s type_name t id h =
      let (l, e, f) = >>=-eq-ok (find_exact_object w s t id >>= or_not_found type_name id) _ h in
      let (found, a, b) = >>=-eq-ok (find_exact_object w s t id) _ e in
      elim (Bool-cases l.inline) [
        | inl i ↦ absurd (err-ne-ok (sym (if_true l.inline _ _ i) ∙ f))
        | inr i ↦
            let g = sym (if_false l.inline _ _ i) ∙ f in
            elim (Bool-cases l.read_only) [
              | inl r ↦ absurd (err-ne-ok (sym (if_true l.read_only _ _ r) ∙ g))
              | inr r ↦
                  let (u, c, d) =
                    >>=-eq-ok (ensure_writable w t id l.file_path) _
                      (sym (if_false l.read_only _ _ r) ∙ g) in
                  subst (λ loc. (find_exact_object w s t id ≡ ok (some loc)) × (loc.inline ≡ false))
                    (ok_inj d) (a ∙ ap ok (or_not_found-some type_name id found b), i)
            ]
      ]

  in_range :
      (s : w.State) (t : TypeDefinition) (id : String) {loc : ObjectLocation} (fc : FileContent)
      → IsFound w s t id loc
      → loc.inline ≡ false
      → loc.multi ≡ true
      → loc.file ≡ some fc
      → (x : Fields) × (get_elem? fc.items loc.index ≡ some x)
  in_range s t id {loc} fc (in_content i c l p st d) n b h =
      let same = content_inj (sym p.file ∙ h) in
      let at = subst (λ multi. Stands multi c loc.index loc.object) (sym p.multi ∙ b) st in
      (at.0, ap (λ c. get_elem? c.items loc.index) (sym same) ∙ at.1)
  in_range s t id fc (inline_object m i k y e o d) n b h = ground arith

  -- The index of a location that the guards let through is that of an item of its file.
  pub writable_location-in_range :
      (s : w.State) (type_name : String) (t : TypeDefinition) (id : String) {loc : ObjectLocation}
      (fc : FileContent)
      → writable_location w s type_name t id ≡ ok loc
      → loc.multi ≡ true
      → loc.file ≡ some fc
      → (x : Fields) × (get_elem? fc.items loc.index ≡ some x)
  writable_location-in_range s type_name t id fc h b f =
      let (found, n) = writable_location-found s type_name t id h in
      in_range s t id fc (find_exact_object-IsFound w s t id found) n b f
