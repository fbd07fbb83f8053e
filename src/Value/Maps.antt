-- ===== src/Value/Maps.antt =====
-- The maps inside values, and the operations on values of internal/data/util.go.
use mathlib.Core.Path.{ap₂}
use mergeway_cli.Prelude.{
  String, ◌≡◌, refl, Option, none, some, List, [], ◌∷◌, arith, ◌==◌, eq_iff, if◌then◌else◌, ap,
}
use mergeway_cli.Value.Defs.{Value, arr, obj, Items, nil, cons, Fields, end, field}

-- `m[k]`
unfoldable pub find : Fields → String → Option Value
find end k = none
find (field j v m) k = if j == k then some v else find m k

-- `m[k] = v`
unfoldable pub set : Fields → String → Value → Fields
set end k v = field k v end
set (field j w m) k v = if j == k then field k v m else field j w (set m k v)

-- `delete(m, k)`
unfoldable pub delete : Fields → String → Fields
delete end k = end
delete (field j v m) k = let rest = delete m k in if j == k then rest else field j v rest

abbrev pub items : Items → List Value
items nil = []
items (cons v vs) = v ∷ items vs

abbrev pub field_names : Fields → List String
field_names end = []
field_names (field k v m) = k ∷ field_names m

-- No key of the map stands in it twice, as in every Go map.
abbrev pub IsMap : Fields → Type 0
IsMap end = Unit
IsMap (field k v m) = (find m k ≡ none) × IsMap m

pub find-set :
    (m : Fields) (k j : String) (v : Value)
    → find (set m k v) j ≡ (if k == j then some v else find m j)
unfolding find set
find-set end k j v = refl
find-set (field i w m) k j v = ground (arith, eq_iff k j, eq_iff i k, eq_iff i j, find-set m k j v)

pub find-delete :
    (m : Fields) (k j : String) → find (delete m k) j ≡ (if k == j then none else find m j)
unfolding find delete
find-delete end k j = ground arith
find-delete (field i v m) k j =
    ground (arith, find-delete m k j, eq_iff i k, eq_iff i j, eq_iff k j)

-- To write what the map holds already changes nothing.
pub set_self : (m : Fields) (k : String) (v : Value) → find m k ≡ some v → set m k v ≡ m
unfolding find set
set_self end k v h = cc
set_self (field j w m) k v h = ground (arith, eq_iff j k, set_self m k v)

-- `cloneMap` and `cloneValue`: what they share with the original is not modelled, for no theorem
-- here speaks of a later change of either.
unfoldable mutual
  pub clone_value : Value → Value
  clone_value (obj m) = obj (clone_map m)
  clone_value (arr vs) = arr (clone_items vs)
  clone_value v = v

  pub clone_map : Fields → Fields
  clone_map end = end
  clone_map (field k v m) = field k (clone_value v) (clone_map m)

  pub clone_items : Items → Items
  clone_items nil = nil
  clone_items (cons v vs) = cons (clone_value v) (clone_items vs)

mutual
  unfolding clone_value

  pub clone_value_lem : (v : Value) → clone_value v ≡ v
  clone_value_lem (obj m) = ap obj (clone_map_lem m)
  clone_value_lem (arr vs) = ap arr (clone_items_lem vs)
  clone_value_lem v = refl

  pub clone_map_lem : (m : Fields) → clone_map m ≡ m
  clone_map_lem end = refl
  clone_map_lem (field k v m) = ap₂ (field k) (clone_value_lem v) (clone_map_lem m)

  pub clone_items_lem : (vs : Items) → clone_items vs ≡ vs
  clone_items_lem nil = refl
  clone_items_lem (cons v vs) = ap₂ cons (clone_value_lem v) (clone_items_lem vs)
