-- ===== src/Value/Scalar.antt =====
-- internal/scalar/scalar.go, and `getString` of internal/data/util.go.
use mergeway_cli.Prelude.{
  ℕ, ◌/◌, ◌%◌, ◌^◌, String, ◌≡◌, ◌≢◌, Bool, not, ◌&&◌, Option, none, some, arith, eqb, ◌==◌, eq_iff,
  if◌then◌else◌,
}
use mergeway_cli.Go.Int.{format_int, format_uint, format_int-ne, format_uint-ne}
use mergeway_cli.Value.Defs.{Value, int, uint, float, number, stringer, str, Fields, FloatWidth}
use mergeway_cli.Value.Maps.{find}

-- `value != value`: of the 64 bits the exponent is all ones, and the fraction is not zero.
abbrev pub is_nan : ℕ → Bool
is_nan bits = eqb (bits / 2 ^ 52 % 2048) 2047 && not (eqb (bits % 2 ^ 52) 0)

-- `strconv.FormatFloat(value, 'f', -1, bitSize)`, the shortest decimal text of a float.
pub record FloatFormat : Type 0 where
  pub format_float : FloatWidth → ℕ → String
  pub format_float-ne : (w : FloatWidth) (bits : ℕ) → format_float w bits ≢ ""

abbrev non_empty : String → Option String
non_empty s = if s == "" then none else some s

module _ (floats : FloatFormat) where
  -- `AsString`
  unfoldable pub as_string : Value → Option String
  as_string (number s) = non_empty s
  as_string (str s) = non_empty s
  as_string (stringer s) = non_empty s
  as_string (int w i) = some (format_int i)
  as_string (uint w n) = some (format_uint n)
  as_string (float w bits) = if is_nan bits then none else some (floats.format_float w bits)
  as_string v = none

  -- `getString`
  unfoldable pub get_string : Fields → String → Option String
  unfolding as_string find
  get_string m key = elim (find m key) [ none ↦ none | some v ↦ as_string v ]

  -- A text that `AsString` returns is not empty, whatever value it comes from.
  pub as_string-ne : (v : Value) {s : String} → as_string v ≡ some s → s ≢ ""
  unfolding as_string
  as_string-ne (number t) {s} h = ground (arith, eq_iff t "")
  as_string-ne (str t) {s} h = ground (arith, eq_iff t "")
  as_string-ne (stringer t) {s} h = ground (arith, eq_iff t "")
  as_string-ne (int w i) {s} h = ground (arith, format_int-ne i)
  as_string-ne (uint w n) {s} h = ground (arith, format_uint-ne n)
  as_string-ne (float w bits) {s} h = ground (arith, floats.format_float-ne w bits)
  as_string-ne v h = cc
