-- ===== src/Tests/Values.antt =====
-- Values, their merge and their normal form at concrete inputs.
use mergeway_cli.Prelude.{String, ◌≡◌, refl, ◌≢◌, some, ok, arith, eq_iff}
use mergeway_cli.Go.Int.{pos}
use mergeway_cli.Value.Defs.{
  Value, null, int, native, str, obj, any_map, arr, nil, cons, Fields, end, field, none_left, entry,
}
use mergeway_cli.Value.Maps.{find}
use mergeway_cli.Value.Merge.{merge_maps, AreWellFormed, IsMerge, merge_maps-IsMerge}
use mergeway_cli.Value.Normalize.{normalize_object, AreNormal, normalize_object-AreNormal}
use mergeway_cli.Value.Scalar.{FloatFormat, as_string}

abbrev stored : Fields
stored = field "name" (str "Ada") (field "address" (obj (field "city" (str "London") end)) end)

abbrev patch : Fields
patch = field "address" (obj (field "zip" (str "N1") end)) (field "age" (int native (pos 36)) end)

stored_patched :
    merge_maps stored patch
    ≡ field "name" (str "Ada") (
        field "address"
          (obj (field "city" (str "London") (field "zip" (str "N1") end)))
          (field "age" (int native (pos 36)) end))
unfolding merge_maps mergeway_cli.Value.Maps.set find
stored_patched = refl

patch-AreWellFormed : AreWellFormed patch
unfolding AreWellFormed find
patch-AreWellFormed = (refl, (refl, tt, tt), (refl, tt, tt))

merge_maps-IsMerge_example :
    IsMerge
      (find stored "address")
      (find patch "address")
      (find (merge_maps stored patch) "address")
merge_maps-IsMerge_example = merge_maps-IsMerge stored patch "address" patch-AreWellFormed

abbrev decoded : Value
decoded = obj (field "tags" (any_map (entry (str "x") (arr (cons null nil)) none_left)) end)

abbrev normal : Fields
normal = field "tags" (obj (field "x" (arr (cons null nil)) end)) end

decoded_normalized : normalize_object decoded ≡ ok normal
unfolding normalize_object
decoded_normalized = refl

normalize_object-AreNormal_example : AreNormal normal × (normalize_object (obj normal) ≡ ok normal)
normalize_object-AreNormal_example = normalize_object-AreNormal decoded decoded_normalized

half_ne : ◌≢◌ {A = String} "0.5" ""
half_ne h = ground (arith, (eq_iff "0.5" "").1 h)

abbrev half_format : FloatFormat
half_format = record { format_float = λ w bits. "0.5"; format_float-ne = λ w bits. half_ne }

number_text : as_string half_format (int native (pos 36)) ≡ some "36"
unfolding as_string mergeway_cli.Go.Int.format_int
number_text = refl
