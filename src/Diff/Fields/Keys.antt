-- ===== src/Diff/Fields/Keys.antt =====
-- The keys over which the comparison of two maps runs.
use mergeway_cli.Prelude.{
  String, ◌≡◌, refl, Bool, true, false, Option, none, some, List, [], ◌∷◌, member, Distinct, ap,
  ◌∙◌, arith, eq_iff, ◌||◌,
}
use mergeway_cli.Go.Order.{member-sort_strings}
use mergeway_cli.Value.Defs.{Value, Fields, end, field}
use mergeway_cli.Value.Maps.{field_names, find, IsMap}
use mergeway_cli.Diff.Fields.{add_keys, union_keys}

member-add_keys :
    (names keys : List String) (a : String)
    → member (add_keys names keys) a ≡ (member names a || member keys a)
unfolding add_keys member
member-add_keys [] keys a = refl
member-add_keys (n ∷ names) keys a =
    ground (arith, member-add_keys names keys a, member-add_keys names keys n, eq_iff n a)

pub member-union_keys :
    (left right : List String) (a : String)
    → member (union_keys left right) a ≡ (member left a || member right a)
unfolding union_keys member
member-union_keys left right a = ground (
  arith,
  member-sort_strings (add_keys left (add_keys right [])) a,
  member-add_keys left (add_keys right []) a,
  member-add_keys right [] a,
)

abbrev pub is_present : Option Value → Bool
is_present none = false
is_present (some v) = true

pub member-field_names :
    (m : Fields) (k : String) → member (field_names m) k ≡ is_present (find m k)
unfolding member find
member-field_names end k = refl
member-field_names (field j v m) k = ground (arith, member-field_names m k)

pub Distinct-field_names : (m : Fields) → IsMap m → Distinct (field_names m)
Distinct-field_names end h = tt
Distinct-field_names (field k v m) h =
    (member-field_names m k ∙ ap is_present h.0, Distinct-field_names m h.1)
