-- ===== src/Go/Int.antt =====
-- Go's signed integers as ℤ, the bounds of `int64`, and the decimal text of a number.
use Prim.Native.Char.{Char}
use text.Mathlib.TextLemmas.{cons≢nil}
use mergeway_cli.Prelude.{
  ℕ, zero, suc, ◌+◌, ◌/◌, ◌%◌, ◌≤◌, String, ◌≡◌, refl, ◌≢◌, ltb, if◌then◌else◌, Bool-cases, inl,
  inr, eqb,
}

-- `negsuc n` is -(n + 1).
pub data ℤ : Type 0 where
  pos : ℕ → ℤ
  negsuc : ℕ → ℤ

-- `math.MaxInt64`
abbrev pub max_int64 : ℕ
max_int64 = 9223372036854775807

-- The values of an `int64`.
abbrev pub IsInt64 : ℤ → Type 0
IsInt64 (pos n) = n ≤ max_int64
IsInt64 (negsuc n) = n ≤ max_int64

digit : ℕ → Char
digit d =
    if eqb d 0
    then "0"
    else if eqb d 1
    then "1"
    else if eqb d 2
    then "2"
    else if eqb d 3
    then "3"
    else if eqb d 4
    then "4"
    else if eqb d 5
    then "5"
    else if eqb d 6
    then "6"
    else if eqb d 7
    then "7"
    else if eqb d 8
    then "8"
    else "9"

decimal_from : ℕ → ℕ → String → String
decimal_from zero n acc = acc
decimal_from (suc fuel) n acc =
    let more = decimal_from fuel (n / 10) (String.◌∷◌ (digit (n % 10)) acc) in
    if ltb n 10 then String.◌∷◌ (digit n) acc else more

-- `strconv.FormatUint(n, 10)`; a number has at most as many digits as its value and one more.
unfoldable pub format_uint : ℕ → String
unfolding decimal_from digit
format_uint n = decimal_from (suc n) n ""

-- `strconv.FormatInt(i, 10)`
unfoldable pub format_int : ℤ → String
unfolding format_uint
format_int (pos n) = format_uint n
format_int (negsuc n) = String.◌∷◌ "-" (format_uint (n + 1))

decimal_from-ne : (fuel n : ℕ) (acc : String) → acc ≢ "" → decimal_from fuel n acc ≢ ""
unfolding decimal_from
decimal_from-ne zero n acc h = h
decimal_from-ne (suc fuel) n acc h = elim (Bool-cases (ltb n 10)) [
  | inl e ↦ rw e cons≢nil
  | inr e ↦ rw e (decimal_from-ne fuel (n / 10) _ cons≢nil)
]

pub format_uint-ne : (n : ℕ) → format_uint n ≢ ""
unfolding format_uint decimal_from
format_uint-ne n = elim (Bool-cases (ltb n 10)) [
  | inl e ↦ rw e cons≢nil
  | inr e ↦ rw e (decimal_from-ne n (n / 10) _ cons≢nil)
]

pub format_int-ne : (i : ℤ) → format_int i ≢ ""
unfolding format_int
format_int-ne (pos n) = format_uint-ne n
format_int-ne (negsuc n) = cons≢nil

format_int_runs : format_int (negsuc 41) ≡ "-42"
unfolding format_int
format_int_runs = refl
