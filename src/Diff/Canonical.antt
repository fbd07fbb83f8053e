-- ===== src/Diff/Canonical.antt =====
-- `semanticCanonicalValue` and `semanticValuesEqual` of internal/diff/diff_semantic.go.
pub mod Laws
use Prim.Native.String
use mergeway_cli.Prelude.{
  ℕ, String, ◌≡◌, refl, Bool, true, false, Option, none, some, List, [], ◌∷◌, ◌==◌, Result, ok, err,
  ◌>>=◌,
}
use mergeway_cli.Go.Map.{Map, get}
use mergeway_cli.Go.Order.{sort_strings}
use mergeway_cli.Go.Text.{join}
use mergeway_cli.Value.Defs.{Value, null, obj, arr, Items, nil, cons, Fields, end, field}
use mergeway_cli.Value.Maps.{field_names}

-- `json.Marshal` fails on a `map[any]any` and on a float that is no number.
pub data MarshalError : Type 0 where
  unsupported : Value → MarshalError

abbrev brackets : String → String → String → String
brackets opened closed text = String.◌++◌ opened (String.◌++◌ text closed)

-- The canonical text of `v[key]`; a key that the map lacks has the value `nil`.
abbrev pub child_text : Option (Result MarshalError String) → Result MarshalError String
child_text none = ok "null"
child_text (some child) = child

-- `json.Marshal` of a value that is neither `nil`, a map with texts as keys nor a slice
module _ (marshal : Value → Result MarshalError String) where
  -- The parts `key + ":" + childCanonical`, in the order of the keys.
  unfoldable pub key_parts :
      Map (Result MarshalError String) → List String → Result MarshalError (List String)
  key_parts children [] = ok []
  key_parts children (key ∷ keys) = child_text (get children key) >>= λ child.
      key_parts children keys >>= λ parts. ok (String.◌++◌ key (String.◌++◌ ":" child) ∷ parts)

  -- `semanticCanonicalValue`
  unfoldable mutual
    pub canonical : Value → Result MarshalError String
    canonical null = ok "null"
    canonical (obj m) = key_parts (canonical_children m) (sort_strings (field_names m)) >>= λ parts.
        ok (brackets "{" "}" (join parts ","))
    canonical (arr vs) =
        canonical_items vs >>= λ items. ok (brackets "[" "]" (join (sort_strings items) ","))
    canonical v = marshal v

    -- what the call for each key of the map returns
    pub canonical_children : Fields → Map (Result MarshalError String)
    canonical_children end = []
    canonical_children (field k v m) = (k, canonical v) ∷ canonical_children m

    pub canonical_items : Items → Result MarshalError (List String)
    canonical_items nil = ok []
    canonical_items (cons v vs) =
        canonical v >>= λ item. canonical_items vs >>= λ items. ok (item ∷ items)

  -- `semanticValuesEqual`
  unfoldable pub semantic_values_equal : Value → Value → Result MarshalError Bool
  semantic_values_equal left right = canonical left >>= λ a. canonical right >>= λ b. ok (a == b)
