-- ===== src/Diff/Fields.antt =====
-- `diffObjectFields` and `diffLogicalValues` of internal/diff/diff_semantic.go.
pub mod Keys
pub mod Laws
use Prim.Native.String
use mergeway_cli.Prelude.{
  ℕ, String, ◌≡◌, refl, Bool, true, false, Option, none, some, List, [], ◌∷◌, ◌++◌, ◌==◌, Result,
  ok, err, ◌>>=◌, if◌then◌else◌, member,
}
use mergeway_cli.Go.Map.{Map, get}
use mergeway_cli.Go.Order.{sort_strings}
use mergeway_cli.Value.Defs.{Value, null, obj, arr, Fields, end, field}
use mergeway_cli.Value.Maps.{field_names, find, clone_value}
use mergeway_cli.Diff.Canonical.{MarshalError, semantic_values_equal}

pub record DiffFieldChange : Type 0 where
  pub path : String
  pub old_value : Value
  pub new_value : Value

abbrev pub Changes : Type 0
Changes = Result MarshalError (List DiffFieldChange)

-- the keys of the set that both loops of `diffObjectFields` fill
unfoldable pub add_keys : List String → List String → List String
add_keys [] keys = keys
add_keys (name ∷ names) keys =
    let rest = add_keys names keys in if member rest name then rest else name ∷ rest

-- `sortedKeys(keySet)`
unfoldable pub union_keys : List String → List String → List String
union_keys left right = sort_strings (add_keys left (add_keys right []))

abbrev pub field_path : String → String → String
field_path prefix key = if prefix == "" then key else String.◌++◌ prefix (String.◌++◌ "." key)

-- The change of one key: `compare` stands for `diffLogicalValues` at the value of `left`.
abbrev pub key_change :
    String → Option (Value × (String → Value → Changes)) → Option Value → Changes
key_change path none none = ok (record { path = path; old_value = null; new_value = null } ∷ [])
key_change path none (some new) =
    ok (record { path = path; old_value = null; new_value = clone_value new } ∷ [])
key_change path (some (old, compare)) none =
    ok (record { path = path; old_value = clone_value old; new_value = null } ∷ [])
key_change path (some (old, compare)) (some new) = compare path new

-- The loop of `diffObjectFields` over the keys.
unfoldable pub diff_keys :
    Map (Value × (String → Value → Changes)) → String → Fields → List String → Changes
diff_keys left prefix right [] = ok []
diff_keys left prefix right (key ∷ keys) =
    key_change (field_path prefix key) (get left key) (find right key) >>= λ changes.
    diff_keys left prefix right keys >>= λ rest. ok (changes ++ rest)

module _ (marshal : Value → Result MarshalError String) where
  abbrev pub changed : Value → String → Value → Changes
  changed left path right =
      ok (record { path = path; old_value = clone_value left; new_value = clone_value right } ∷ [])

  unfoldable mutual
    -- `diffLogicalValues(path, left, right)`
    pub diff_logical_values : Value → String → Value → Changes
    diff_logical_values (obj l) path (obj r) =
        semantic_values_equal marshal (obj l) (obj r) >>= λ equal.
        if equal
        then ok []
        else diff_keys (compared l) path r (union_keys (field_names l) (field_names r))
    diff_logical_values left path right = semantic_values_equal marshal left right >>= λ equal.
        if equal then ok [] else changed left path right

    -- the values of a map, each with its call of `diffLogicalValues`
    pub compared : Fields → Map (Value × (String → Value → Changes))
    compared end = []
    compared (field k v m) = (k, (v, diff_logical_values v)) ∷ compared m

  -- `diffObjectFields(prefix, left, right)`
  unfoldable pub diff_object_fields : String → Fields → Fields → Changes
  diff_object_fields prefix left right =
      diff_keys (compared left) prefix right (union_keys (field_names left) (field_names right))
