-- ===== src/Tests/Snapshots.antt =====
-- Comparisons of snapshots at concrete inputs.
use Prim.Native.String
use mathlib.Core.List.{Permᴰ}
use mergeway_cli.Prelude.{
  String, ◌≡◌, refl, Bool, true, false, Option, none, some, List, [], ◌∷◌, Result, ok, err, In,
  here, there, ◌↔◌,
}
use mergeway_cli.Go.Map.{get}
use mergeway_cli.Go.Order.{text_lt}
use mergeway_cli.Value.Defs.{Value, bool, str, arr, obj, Items, nil, cons, Fields, end, field}
use mergeway_cli.Value.Maps.{items, find}
use mergeway_cli.Value.Merge.{AreWellFormed}
use mergeway_cli.Diff.Canonical.{MarshalError, unsupported, canonical, semantic_values_equal}
use mergeway_cli.Diff.Canonical.Laws.{canonical-Perm, joined_key, semantic_values_equal_collision}
use mergeway_cli.Diff.Fields.{DiffFieldChange, diff_object_fields}
use mergeway_cli.Diff.Fields.Laws.{SameFields, diff_object_fields-none_iff}
use mergeway_cli.Diff.Database.{
  LogicalObject, DiffEntry, removed_entry, added_entry, logical_objects_by_key,
  diff_logical_databases,
}
use mergeway_cli.Diff.Database.Laws.{Explains, diff_logical_databases-Explains}

-- The JSON texts of the values that the examples use.
abbrev json_text : Value → Result MarshalError String
json_text (str s) = ok (String.◌++◌ "\"" (String.◌++◌ s "\""))
json_text (bool true) = ok "true"
json_text (bool false) = ok "false"
json_text v = err (unsupported v)

abbrev tags : Items
tags = cons (str "b") (cons (bool true) nil)

abbrev tags_swapped : Items
tags_swapped = cons (bool true) (cons (str "b") nil)

tags_text : canonical json_text (arr tags) ≡ ok "[\"b\",true]"
unfolding canonical mergeway_cli.Go.Text.join mergeway_cli.Go.Order.sort_strings text_lt
tags_text = refl

tags-Perm : Permᴰ (items tags) (items tags_swapped)
tags-Perm = Permᴰ.swap refl refl

canonical-Perm_example : canonical json_text (arr tags_swapped) ≡ ok "[\"b\",true]"
canonical-Perm_example = canonical-Perm json_text tags tags_swapped tags-Perm tags_text

true_text : canonical json_text (bool true) ≡ ok "true"
unfolding canonical
true_text = refl

a_before_b : text_lt "a" "b" ≡ true
unfolding text_lt
a_before_b = refl

-- `{a: true, b: true}` and `{"a:true,b": true}`
semantic_values_equal_collision_example :
    semantic_values_equal json_text
      (obj (field "a" (bool true) (field "b" (bool true) end)))
      (obj (field (joined_key "a" "true" "b") (bool true) end))
    ≡ ok true
semantic_values_equal_collision_example =
    semantic_values_equal_collision json_text "a" "b" (bool true) (bool true) a_before_b true_text
      true_text

abbrev ada : Fields
ada = field "name" (str "Ada") (field "tags" (arr tags) end)

abbrev ada_reordered : Fields
ada_reordered = field "tags" (arr tags_swapped) (field "name" (str "Ada") end)

ada-AreWellFormed : AreWellFormed ada
unfolding AreWellFormed find
ada-AreWellFormed = (refl, tt, (refl, tt, tt))

ada_reordered-AreWellFormed : AreWellFormed ada_reordered
unfolding AreWellFormed find
ada_reordered-AreWellFormed = (refl, tt, (refl, tt, tt))

ada_unchanged : diff_object_fields json_text "" ada ada_reordered ≡ ok []
unfolding diff_object_fields mergeway_cli.Diff.Fields.diff_keys mergeway_cli.Diff.Fields.union_keys
    mergeway_cli.Go.Order.sort_strings mergeway_cli.Diff.Fields.add_keys mergeway_cli.Prelude.member
    text_lt get mergeway_cli.Diff.Fields.compared find semantic_values_equal canonical
    mergeway_cli.Go.Text.join
ada_unchanged = refl

diff_object_fields-none_iff_example :
    (diff_object_fields json_text "" ada ada_reordered ≡ ok [])
    ↔ SameFields json_text ada ada_reordered
diff_object_fields-none_iff_example =
    diff_object_fields-none_iff json_text "" ada ada_reordered ada-AreWellFormed
      ada_reordered-AreWellFormed

abbrev user : String → Fields → LogicalObject
user id fields = record {
  type_name = "User";
  id = id;
  fields = fields;
  canonical = "";
  sources = [];
}

abbrev before : List LogicalObject
before = user "ada" ada ∷ user "bob" end ∷ []

abbrev now : List LogicalObject
now = user "ada" ada_reordered ∷ user "eve" end ∷ []

abbrev change_entries : List DiffEntry
change_entries = removed_entry (user "bob" end) ∷ added_entry (user "eve" end) ∷ []

users_compared : diff_logical_databases json_text before now ≡ ok change_entries
unfolding diff_logical_databases mergeway_cli.Diff.Database.entries_for
    mergeway_cli.Diff.Fields.union_keys mergeway_cli.Go.Order.sort_strings
    mergeway_cli.Diff.Fields.add_keys logical_objects_by_key mergeway_cli.Diff.Database.add_objects
    mergeway_cli.Go.Map.put mergeway_cli.Prelude.member text_lt
    mergeway_cli.Diff.Database.entries_of get diff_object_fields mergeway_cli.Diff.Fields.diff_keys
    mergeway_cli.Diff.Fields.compared find semantic_values_equal canonical
    mergeway_cli.Diff.Canonical.key_parts mergeway_cli.Diff.Database.logical_source_keys
    mergeway_cli.Diff.Database.paired mergeway_cli.Diff.Database.same_keys
    mergeway_cli.Diff.Database.semantic_sources_equal mergeway_cli.Go.Order.insert
    mergeway_cli.Go.Text.join mergeway_cli.Value.Maps.clone_map mergeway_cli.Value.Maps.clone_value
users_compared = refl

diff_logical_databases-Explains_example : In (removed_entry (user "bob" end)) change_entries ↔ (
    (key : String) × Explains json_text
      (get (logical_objects_by_key before) key)
      (get (logical_objects_by_key now) key)
      (removed_entry (user "bob" end)))
diff_logical_databases-Explains_example =
    diff_logical_databases-Explains json_text before now (removed_entry (user "bob" end))
      users_compared
