-- ===== src/Config/IsA.antt =====
-- `IsA`, `DescendantTypes` and `AssignableTypes` of internal/config/model.go.
pub mod Laws
use mergeway_cli.Prelude.{
  ℕ, zero, suc, String, Bool, true, false, Option, none, some, List, [], ◌∷◌, ◌==◌, if◌then◌else◌,
  not, ◌&&◌, ◌||◌, length, member, map,
}
use mergeway_cli.Go.Map.{Map, get, has, keys}
use mergeway_cli.Go.Order.{sort_strings}
use mergeway_cli.Config.Model.{TypeDefinition, Config}

-- The loop of `IsA`. Each round adds a name to `seen`, so that one round more than there are types
-- is never reached.
unfoldable pub is_a_loop :
    ℕ → Map TypeDefinition → List String → Option TypeDefinition → String → Bool
is_a_loop zero types seen current parent = false
is_a_loop (suc fuel) types seen none parent = false
is_a_loop (suc fuel) types seen (some t) parent =
    let rest = is_a_loop fuel types (t.extends ∷ seen) (get types t.extends) parent in
    if t.extends == ""
    then false
    else if t.extends == parent
    then true
    else if member seen t.extends
    then false
    else rest

-- `IsA`
unfoldable pub is_a : Config → String → String → Bool
is_a c child parent =
    if child == "" || parent == ""
    then false
    else if not (has c.types child) || not (has c.types parent)
    then false
    else if child == parent
    then true
    else is_a_loop (suc (length c.types)) c.types (child ∷ []) (get c.types child) parent

-- The loop of `DescendantTypes`, over the names in the order of the map's iteration.
unfoldable pub descendants_among : Config → String → List String → List String
descendants_among c type_name [] = []
descendants_among c type_name (candidate ∷ names) =
    let rest = descendants_among c type_name names in
    if candidate == type_name
    then rest
    else if is_a c candidate type_name
    then candidate ∷ rest
    else rest

-- `DescendantTypes`
unfoldable pub descendant_types : Config → String → List String
descendant_types c type_name =
    if type_name == "" || not (has c.types type_name)
    then []
    else sort_strings (descendants_among c type_name (keys c.types))

-- `AssignableTypes`
unfoldable pub assignable_types : Config → String → List String
assignable_types c type_name =
    if type_name == "" || not (has c.types type_name)
    then []
    else type_name ∷ descendant_types c type_name
