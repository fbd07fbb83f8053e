-- ===== src/Value/Normalize.antt =====
-- `normalizeYAMLValue`, `normalizeObject` and `toSliceMap` of internal/data/util.go, which the
-- packages validation and diff have copies of.
use mergeway_cli.Prelude.{
  ◌≡◌, refl, List, [], ◌∷◌, Result, ok, err, ◌>>=◌, ap, >>=-eq-ok, ok_inj, subst,
}
use mergeway_cli.Value.Defs.{
  Value, str, arr, obj, any_map, Items, nil, cons, Fields, end, field, AnyFields, none_left, entry,
}
use mergeway_cli.Value.Maps.{clone_map}

pub data ShapeError : Type 0 where
  key_not_string : Value → ShapeError
  not_object : Value → ShapeError
  not_array : Value → ShapeError
  item_not_object : Value → ShapeError

-- The keys of a map are distinct, so that the writes `result[key] = normalized` append.
unfoldable mutual
  pub normalize_yaml : Value → Result ShapeError Value
  normalize_yaml (obj m) = normalize_fields m >>= λ m'. ok (obj m')
  normalize_yaml (any_map m) = normalize_any m >>= λ m'. ok (obj m')
  normalize_yaml (arr vs) = normalize_items vs >>= λ vs'. ok (arr vs')
  normalize_yaml v = ok v

  pub normalize_fields : Fields → Result ShapeError Fields
  normalize_fields end = ok end
  normalize_fields (field k v m) =
      normalize_yaml v >>= λ v'. normalize_fields m >>= λ m'. ok (field k v' m')

  pub normalize_any : AnyFields → Result ShapeError Fields
  normalize_any none_left = ok end
  normalize_any (entry (str k) v m) =
      normalize_yaml v >>= λ v'. normalize_any m >>= λ m'. ok (field k v' m')
  normalize_any (entry key v m) = err (key_not_string key)

  pub normalize_items : Items → Result ShapeError Items
  normalize_items nil = ok nil
  normalize_items (cons v vs) =
      normalize_yaml v >>= λ v'. normalize_items vs >>= λ vs'. ok (cons v' vs')

abbrev as_object : Value → Result ShapeError Fields
as_object (obj m) = ok m
as_object v = err (not_object v)

-- `normalizeObject`
unfoldable pub normalize_object : Value → Result ShapeError Fields
unfolding normalize_yaml
normalize_object v = normalize_yaml v >>= as_object

unfoldable pub objects_of : Items → Result ShapeError (List Fields)
unfolding clone_map
objects_of nil = ok []
objects_of (cons (obj m) vs) = objects_of vs >>= λ ms. ok (clone_map m ∷ ms)
objects_of (cons v vs) = err (item_not_object v)

-- `toSliceMap`
unfoldable pub to_slice_map : Value → Result ShapeError (List Fields)
unfolding objects_of
to_slice_map (arr vs) = objects_of vs
to_slice_map v = err (not_array v)

as_object-obj : (w : Value) {m : Fields} → as_object w ≡ ok m → w ≡ obj m
as_object-obj (obj n) h = ap obj (ok_inj h)
as_object-obj v h = cc

-- No `map[any]any` is left in the value, at any depth.
unfoldable mutual
  pub IsNormal : Value → Type 0
  IsNormal (obj m) = AreNormal m
  IsNormal (arr vs) = AreNormalItems vs
  IsNormal (any_map m) = ⊥
  IsNormal v = Unit

  pub AreNormal : Fields → Type 0
  AreNormal end = Unit
  AreNormal (field k v m) = IsNormal v × AreNormal m

  pub AreNormalItems : Items → Type 0
  AreNormalItems nil = Unit
  AreNormalItems (cons v vs) = IsNormal v × AreNormalItems vs

-- A value with no `map[any]any` is returned as it is.
mutual
  unfolding normalize_yaml IsNormal

  pub normalize_yaml_of_IsNormal : (v : Value) → IsNormal v → normalize_yaml v ≡ ok v
  normalize_yaml_of_IsNormal (obj m) h = rw (normalize_fields_of m h)
  normalize_yaml_of_IsNormal (arr vs) h = rw (normalize_items_of vs h)
  normalize_yaml_of_IsNormal (any_map m) h = absurd h
  normalize_yaml_of_IsNormal v h = refl

  normalize_fields_of : (m : Fields) → AreNormal m → normalize_fields m ≡ ok m
  normalize_fields_of end h = refl
  normalize_fields_of (field k v m) h =
      rw (normalize_yaml_of_IsNormal v h.0, normalize_fields_of m h.1)

  normalize_items_of : (vs : Items) → AreNormalItems vs → normalize_items vs ≡ ok vs
  normalize_items_of nil h = refl
  normalize_items_of (cons v vs) h =
      rw (normalize_yaml_of_IsNormal v h.0, normalize_items_of vs h.1)

-- What is returned has no `map[any]any` left.
mutual
  unfolding normalize_yaml IsNormal

  pub normalize_yaml-IsNormal : (v w : Value) → normalize_yaml v ≡ ok w → IsNormal w
  normalize_yaml-IsNormal (obj m) w h =
      let (m', e, f) = >>=-eq-ok (normalize_fields m) _ h in
      rw (← (ok_inj f)) (normalize_fields-AreNormal m m' e)
  normalize_yaml-IsNormal (any_map m) w h =
      let (m', e, f) = >>=-eq-ok (normalize_any m) _ h in
      rw (← (ok_inj f)) (normalize_any-AreNormal m m' e)
  normalize_yaml-IsNormal (arr vs) w h =
      let (vs', e, f) = >>=-eq-ok (normalize_items vs) _ h in
      rw (← (ok_inj f)) (normalize_items-AreNormal vs vs' e)
  normalize_yaml-IsNormal v w h = rw (← (ok_inj h)) tt

  normalize_fields-AreNormal : (m m' : Fields) → normalize_fields m ≡ ok m' → AreNormal m'
  normalize_fields-AreNormal end m' h = rw (← (ok_inj h)) tt
  normalize_fields-AreNormal (field k v m) m' h =
      let (v', e, f) = >>=-eq-ok (normalize_yaml v) _ h in
      let (m'', e', f') = >>=-eq-ok (normalize_fields m) _ f in
      rw (← (ok_inj f')) (normalize_yaml-IsNormal v v' e, normalize_fields-AreNormal m m'' e')

  normalize_any-AreNormal : (m : AnyFields) (m' : Fields) → normalize_any m ≡ ok m' → AreNormal m'
  normalize_any-AreNormal none_left m' h = rw (← (ok_inj h)) tt
  normalize_any-AreNormal (entry (str k) v m) m' h =
      let (v', e, f) = >>=-eq-ok (normalize_yaml v) _ h in
      let (m'', e', f') = >>=-eq-ok (normalize_any m) _ f in
      rw (← (ok_inj f')) (normalize_yaml-IsNormal v v' e, normalize_any-AreNormal m m'' e')
  normalize_any-AreNormal (entry key v m) m' h = cc

  normalize_items-AreNormal : (vs vs' : Items) → normalize_items vs ≡ ok vs' → AreNormalItems vs'
  normalize_items-AreNormal nil vs' h = rw (← (ok_inj h)) tt
  normalize_items-AreNormal (cons v vs) vs' h =
      let (v', e, f) = >>=-eq-ok (normalize_yaml v) _ h in
      let (ws, e', f') = >>=-eq-ok (normalize_items vs) _ f in
      rw (← (ok_inj f')) (normalize_yaml-IsNormal v v' e, normalize_items-AreNormal vs ws e')

-- A map that `normalizeObject` returns has no `map[any]any` in it at any depth, and normalising it
-- again returns it as it is.
pub normalize_object-AreNormal :
    (v : Value) {m : Fields}
    → normalize_object v ≡ ok m
    → AreNormal m × (normalize_object (obj m) ≡ ok m)
unfolding normalize_object IsNormal
normalize_object-AreNormal v {m} h =
    let (w, e, f) = >>=-eq-ok (normalize_yaml v) _ h in
    let normal = subst IsNormal (as_object-obj w f) (normalize_yaml-IsNormal v w e) in
    (normal, rw (normalize_yaml_of_IsNormal (obj m) normal) refl)
